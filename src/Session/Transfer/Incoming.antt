-- ===== src/Session/Transfer/Incoming.antt =====
-- crates/session/src/transfer.rs: the receiving side: offers, chunks, the end of a file, and the
-- queue of downloads. The file system enters as the parameters of Files/Transfer, as `openable`
-- (whether the part file of a name can be opened), as `found` (what a fetched path expands to) and
-- as `list_directory`.
use remote_x.Prelude.{
  ℕ, zero, suc, ◌-◌, ◌/◌, ◌%◌, Bool, true, false, ◌&&◌, ◌||◌, not, List, [], ◌∷◌, ◌++◌, Option,
  none, some, ltb, leb, nat_beq, if◌then◌else◌,
}
use remote_x.Prelude.Eq.{nat_eq}
use remote_x.Prelude.Result.{Result, ok, err}
use remote_x.Common.Text.{Text, codes, text_eq}
use remote_x.Common.Peer.{accept, reject_file, verified, cancel, DirEntry}
use remote_x.Map.{Map, lookup, insert}
use remote_x.Files.Names.{FileError, sanitize_relative}
use remote_x.Files.Transfer.{IncomingFile, exists, part_path, open_file, write_chunk, finish}
use remote_x.Session.Transfer.State.{
  pending, active, completed, cancelled, Transfer, FileManager, send, transfer_event, file_request,
  Outcome, ◌>>◌, is_viewer, bit, update, with_status, fail, track, active_count, silently,
}

-- The operating system and the libraries, as this component uses them.
pub record World : Type 0 where
  pub is_normal : Text → Bool
  -- `download_dir.join(name)`, and the numbered variants that `unique_path` forms of it
  pub place : Text → Text
  pub numbered : Text → ℕ → Text
  pub openable : Text → Bool
  pub sha256 : List ℕ → List ℕ
  -- `metadata(path).len()`
  pub file_size : Text → Option ℕ
  -- `canonicalize` and `expand_paths`: `none` where the path does not exist
  pub found : Text → Option (List (Text × Text))
  pub list_directory : Text → List DirEntry × Option Text
  -- bytes per second from a distance in bytes and one in nanoseconds, `as u64`
  pub per_second : ℕ → ℕ → ℕ

unfoldable pub reject : ℕ → Text → FileManager → Outcome
reject id why m = (m, send (reject_file id why) ∷ [])

-- The samples of the last three seconds.
unfoldable pub recent : ℕ → List (ℕ × ℕ) → List (ℕ × ℕ)
recent now [] = []
recent now ((at, n) ∷ w) =
    let rest = recent now w in if ltb (now - at) 3_000_000_000 then (at, n) ∷ rest else rest

unfoldable pub last_sample : ℕ × ℕ → List (ℕ × ℕ) → ℕ × ℕ
last_sample p [] = p
last_sample p (q ∷ w) = last_sample q w

-- The speed over the window, if the window spans more than a fifth of a second.
unfoldable pub speed_of : (ℕ → ℕ → ℕ) → ℕ → List (ℕ × ℕ) → ℕ
unfolding last_sample
speed_of per_second old [] = old
speed_of per_second old ((at, n) ∷ w) =
    let (at', n') = last_sample (at, n) w in
    if ltb 200_000_000 (at' - at) then per_second (n' - n) (at' - at) else old

unfoldable pub advanced : (ℕ → ℕ → ℕ) → ℕ → ℕ → Transfer → Transfer
unfolding recent speed_of
advanced per_second now transferred t =
    let window = recent now (t.speed.window ++ ((now, transferred) ∷ [])) in
    let bps = speed_of per_second t.info.speed_bps window in
    record t {
      info = record t.info {
        transferred = transferred;
        speed_bps = bps;
        eta_secs = if ltb 0 bps then some ((t.info.size - transferred) / bps) else none;
      };
      speed = record {
        last_emit = if ltb 250_000_000 (now - t.speed.last_emit) then now else t.speed.last_emit;
        window = window;
      };
    }

unfoldable pub progress : (ℕ → ℕ → ℕ) → ℕ → ℕ → ℕ → FileManager → Outcome
unfolding advanced
progress per_second id transferred now m = elim (lookup id m.transfers) [
  | none ↦ (m, [])
  | some t ↦
      let t' = advanced per_second now transferred t in
      (
        record m { transfers = insert id t' m.transfers },
        if ltb 250_000_000 (now - t.speed.last_emit) then transfer_event t'.info ∷ [] else [],
      )
]

abbrev pub started : IncomingFile → Transfer → Transfer
started file t = record t {
  info = record t.info { status = active; transferred = file.received };
  queued = false;
  incoming = some file;
}

unfoldable pub is_known : ℕ → FileManager → Bool
is_known id m = elim (lookup id m.transfers) [ none ↦ false | some t ↦ true ]

abbrev pub file_error : FileError → Text
file_error FileError.bad_name = codes "unsafe or invalid file name"
file_error FileError.too_large = codes "file exceeds the allowed size"
file_error FileError.out_of_order = codes "chunk out of order"
file_error FileError.io = codes "i/o error"

unfoldable pub is_queued : Transfer → Bool
is_queued t = t.queued && not t.info.upload

-- The first queued download in the map's order.
unfoldable pub next_queued : Map ℕ Transfer → Option (ℕ × Transfer)
unfolding is_queued
next_queued [] = none
next_queued ((id, t) ∷ m) = let rest = next_queued m in if is_queued t then some (id, t) else rest

-- Whether an id is one that the peer gives out.
unfoldable pub from_peer : ℕ → FileManager → Bool
from_peer id m = nat_beq (id % 2) (bit (not (is_viewer m.policy.side)))

-- Whether the user asked for a download a short while ago.
unfoldable pub expects : ℕ → FileManager → Bool
expects now m = elim m.accept_offers_until [ none ↦ false | some until ↦ ltb now until ]

unfoldable pub ask_user : ℕ → Text → ℕ → FileManager → Outcome
ask_user id name size m = (
  record m { pending_approval = insert id (name, size) m.pending_approval },
  file_request id name size ∷ [],
)

abbrev pub with_incoming : Option IncomingFile → Transfer → Transfer
with_incoming f t = record t { incoming = f }

abbrev pub finished : Text → Transfer → Transfer
finished path t = record t {
  info = record t.info {
    status = completed;
    transferred = t.info.size;
    speed_bps = 0;
    eta_secs = none;
  };
  path = path;
}

abbrev pub dropped : Transfer → Transfer
dropped t = with_incoming none (with_status cancelled t)

abbrev pub told_to_stop : Transfer → Transfer
told_to_stop t = record t { ctl = record t.ctl { cancelled = true } }

module _ (w : World) where
  -- A part file without its target is resumed.
  unfoldable pub resumes : Text → FileManager → Bool
  resumes name m = elim (sanitize_relative w.is_normal name) [
    | err e ↦ false
    | ok parts ↦ exists m.disk (part_path (w.place name)) && not (exists m.disk (w.place name))
  ]

  -- `IncomingFile::open`: the size, the name, then the disk.
  unfoldable pub open_incoming :
      Text → ℕ → FileManager → Result IncomingFile FileError × FileManager
  unfolding resumes
  open_incoming name size m =
      if ltb m.policy.max_file_size size
      then (err FileError.too_large, m)
      else (elim (sanitize_relative w.is_normal name) [
        | err e ↦ (err e, m)
        | ok parts ↦
            if not (w.openable name)
            then (err FileError.io, m)
            else (let (r, disk) =
                  open_file (w.place name) (w.numbered name) size m.policy.max_file_size
                    (resumes name m) m.disk in
                (r, record m { disk = disk }))
      ])

  unfoldable pub ensure_tracked : ℕ → Text → ℕ → ℕ → FileManager → Outcome
  unfolding track is_known
  ensure_tracked id name size now m =
      if is_known id m then (m, []) else track id name size false (w.place name) active now m

  -- The two branches after `IncomingFile::open`.
  unfoldable pub start_opened :
      ℕ → Text → ℕ → ℕ → Result IncomingFile FileError × FileManager → Outcome
  unfolding ensure_tracked update fail reject
  start_opened id name size now (ok file, m) =
      ensure_tracked id name size now m
      >> update id (started file)
      >> (λ m'. (m', send (accept id file.received) ∷ []))
  start_opened id name size now (err e, m) = reject id (file_error e) m >> fail id (file_error e)

  unfoldable pub start_incoming : ℕ → Text → ℕ → ℕ → FileManager → Outcome
  unfolding open_incoming start_opened
  start_incoming id name size now m = start_opened id name size now (open_incoming name size m)

  unfoldable pub accept_incoming : ℕ → Text → ℕ → ℕ → FileManager → Outcome
  unfolding start_incoming active_count track silently
  accept_incoming id name size now m =
      if leb m.policy.max_active (active_count m)
      then (let (m', outs) = track id name size false [] pending now m in
          (silently id (λ t. record t { queued = true }) m', outs))
      else start_incoming id name size now m

  -- The loop of `start_queued`; `none` means that the fuel ran out.
  unfoldable pub start_queued : ℕ → ℕ → FileManager → Option Outcome
  unfolding next_queued active_count
  start_queued zero now m = none
  start_queued (suc fuel) now m =
      if leb m.policy.max_active (active_count m)
      then some (m, [])
      else (elim (next_queued m.transfers) [
        | none ↦ some (m, [])
        | some (id, t) ↦
            let (m', outs) = start_incoming id t.info.name t.info.size now m in
            let rest = start_queued fuel now m' in
            elim rest [ none ↦ none | some (m'', more) ↦ some (m'', outs ++ more) ]
      ])

  abbrev pub is_bad_name : Text → Bool
  is_bad_name name = elim (sanitize_relative w.is_normal name) [ err e ↦ true | ok parts ↦ false ]

  unfoldable pub on_offer : ℕ → Text → ℕ → ℕ → FileManager → Outcome
  unfolding from_peer expects ask_user accept_incoming reject is_known
  on_offer id name size now m =
      if not (from_peer id m) || is_known id m
      then reject id (codes "invalid transfer id") m
      else if is_bad_name name || ltb m.policy.max_file_size size
      then reject id (codes "file not acceptable") m
      else if is_viewer m.policy.side
      then (if expects now m
          then accept_incoming id name size now m
          else reject id (codes "unsolicited transfer") m)
      else if m.policy.ask_before_receiving
      then ask_user id name size m
      else accept_incoming id name size now m

  unfoldable pub on_chunk : ℕ → ℕ → List ℕ → ℕ → FileManager → Outcome
  unfolding silently progress fail
  on_chunk id offset bytes now m = elim (lookup id m.transfers) [
    | none ↦ (m, [])
    | some t ↦ if t.ctl.cancelled then (m, []) else (elim t.incoming [
      | none ↦ (m, [])
      | some f ↦
          let (e, f', disk') = write_chunk offset bytes f m.disk in
          let m' = silently id (with_incoming (some f')) (record m { disk = disk' }) in
          elim e [
            | none ↦ progress w.per_second id f'.received now m'
            | some why ↦ (m', send (cancel id) ∷ []) >> fail id (file_error why)
          ]
    ])
  ]

  -- `on_done` up to the queue.
  unfoldable pub finish_incoming : ℕ → List ℕ → FileManager → Option Outcome
  unfolding silently update fail
  finish_incoming id digest m = elim (lookup id m.transfers) [
    | none ↦ none
    | some t ↦ elim t.incoming [
      | none ↦ none
      | some f ↦
          let (r, disk') = finish w.sha256 digest f m.disk in
          let m' = silently id (with_incoming none) (record m { disk = disk' }) in
          some (elim r [
            | ok path ↦ (m', send (verified id true) ∷ []) >> update id (finished path)
            | err e ↦
                (m', send (verified id false) ∷ []) >> fail id (codes "integrity check failed")
          ])
    ]
  ]

  -- `none`: the loop over the queue did not end within the fuel.
  unfoldable pub on_done : ℕ → ℕ → List ℕ → ℕ → FileManager → Option Outcome
  unfolding finish_incoming start_queued
  on_done fuel id digest now m = elim (finish_incoming id digest m) [
    | none ↦ some (m, [])
    | some (m', outs) ↦ elim (start_queued fuel now m') [
      | none ↦ none
      | some (m'', more) ↦ some (m'', outs ++ more)
    ]
  ]
