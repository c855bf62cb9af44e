-- ===== src/Session/Transfer/Commands.antt =====
-- crates/session/src/transfer.rs: what the user and the session ask for, and the task that streams
-- an accepted upload.
use remote_x.Prelude.{
  ℕ, ◌+◌, ◌*◌, Bool, true, false, ◌||◌, not, List, [], ◌∷◌, ◌++◌, Option, none, some, if◌then◌else◌,
  length,
}
use remote_x.Prelude.Eq.{nat_eq}
use remote_x.Prelude.Result.{Result, ok, err}
use remote_x.Common.Text.{Text, codes}
use remote_x.Common.Peer.{cancel, list_dir, fetch, chunk, done}
use remote_x.Map.{lookup, remove, keys_where}
use remote_x.Files.Transfer.{OutgoingFile, next_chunk}
use remote_x.Session.Transfer.State.{
  active, paused, Ctl, Transfer, FileManager, Out, send, Outcome, ◌>>◌, is_viewer, alloc_id,
  is_open, update, with_status, fail, silently,
}
use remote_x.Session.Transfer.Incoming.{
  World, accept_incoming, reject, dropped, told_to_stop, is_known, progress,
}
use remote_x.Session.Transfer.Messages.{offer_file}

unfoldable pub on_cancel_known : ℕ → FileManager → Outcome
unfolding update silently
on_cancel_known id m = (silently id told_to_stop m, send (cancel id) ∷ []) >> update id dropped

-- `FileManager::cancel`
unfoldable pub cancel_transfer : ℕ → FileManager → Outcome
unfolding on_cancel_known is_known
cancel_transfer id m = if is_known id m then on_cancel_known id m else (m, [])

unfoldable pub cancel_each : List ℕ → FileManager → Outcome
unfolding cancel_transfer
cancel_each [] m = (m, [])
cancel_each (id ∷ ids) m = cancel_transfer id m >> cancel_each ids

unfoldable pub cancel_all : FileManager → Outcome
unfolding cancel_each
cancel_all m = cancel_each (keys_where (λ id t. is_open t.info.status) m.transfers) m

unfoldable pub set_allowed : Bool → FileManager → Outcome
unfolding cancel_all
set_allowed allowed m =
    let m' = record m { allowed = allowed } in if allowed then (m', []) else cancel_all m'

abbrev pub with_pause : Bool → Transfer → Transfer
with_pause b t = record t { ctl = record t.ctl { paused = b } }

unfoldable pub pausing : Transfer → Transfer
pausing t = elim t.info.status [ active ↦ with_status paused t | _ ↦ t ]

unfoldable pub resuming : Transfer → Transfer
resuming t = elim t.info.status [
  | paused ↦ record t { info = record t.info { status = active } }
  | _ ↦ t
]

unfoldable pub pause : ℕ → FileManager → Outcome
unfolding silently update pausing
pause id m = update id pausing (silently id (with_pause true) m)

unfoldable pub resume : ℕ → FileManager → Outcome
unfolding silently update resuming
resume id m = update id resuming (silently id (with_pause false) m)

pub data Refusal : Type 0 where
  not_permitted unreadable unknown_transfer only_uploads : Refusal

module _ (w : World) where
  -- The first file that cannot be read ends it; what was offered before stays.
  unfoldable pub offer_each :
      List (Text × Text) → ℕ → FileManager → Option Refusal × FileManager × List Out
  offer_each [] now m = (none, m, [])
  offer_each ((path, name) ∷ files) now m = elim (offer_file w path name now m) [
    | none ↦ (some unreadable, m, [])
    | some (m', outs) ↦ let (r, m'', more) = offer_each files now m' in (r, m'', outs ++ more)
  ]

  -- `files` is what `expand_paths` gives. The number of files, or the error.
  unfoldable pub send_paths :
      Option (List (Text × Text)) → ℕ → FileManager → Result ℕ Refusal × FileManager × List Out
  unfolding offer_each
  send_paths files now m = if not m.allowed then (err not_permitted, m, []) else (elim files [
    | none ↦ (err unreadable, m, [])
    | some fs ↦
        let (r, m', outs) = offer_each fs now m in
        ((elim r [ none ↦ ok (length fs) | some why ↦ err why ]), m', outs)
  ])

  unfoldable pub retry : ℕ → ℕ → FileManager → Option Refusal × FileManager × List Out
  retry id now m = elim (lookup id m.transfers) [
    | none ↦ (some unknown_transfer, m, [])
    | some t ↦
        if not t.info.upload
        then (some only_uploads, m, [])
        else (let m' = record m { transfers = remove id m.transfers } in
            elim (offer_file w t.path t.info.name now m') [
              | none ↦ (some unreadable, m', [])
              | some (m'', outs) ↦ (none, m'', outs)
            ])
  ]

  -- The user's answer to a `FileRequest`.
  unfoldable pub respond : ℕ → Bool → ℕ → FileManager → Outcome
  respond id agrees now m = elim (lookup id m.pending_approval) [
    | none ↦ (m, [])
    | some (name, size) ↦
        let m' = record m { pending_approval = remove id m.pending_approval } in
        if agrees then accept_incoming w id name size now m' else reject id (codes "declined") m'
  ]

unfoldable pub download : Text → ℕ → FileManager → Option Refusal × FileManager × List Out
unfolding alloc_id
download path now m =
    if not m.allowed || not (is_viewer m.policy.side)
    then (some not_permitted, m, [])
    else (let (id, m') = alloc_id m in
        (
          none,
          record m' { accept_offers_until = some (now + 30 * 1_000_000_000) },
          send (fetch id path) ∷ [],
        ))

unfoldable pub ask_list : Text → FileManager → Outcome
ask_list path m = (m, send (list_dir path) ∷ [])

-- The task that streams a file: its place in it, or nothing when it has come to its end.
unfoldable pub stream_step :
    World
    → Option (List ℕ)
    → ℕ
    → ℕ
    → ℕ
    → Ctl
    → OutgoingFile
    → FileManager
    → Option OutgoingFile × FileManager × List Out
stream_step w digest short id now ctl file m =
    if ctl.cancelled
    then (none, m, [])
    else if ctl.paused
    then (some file, m, [])
    else (let (c, file') = next_chunk short file in
        elim c [
          | some (offset, bytes) ↦
              let (m', outs) = progress w.per_second id (offset + length bytes) now m in
              (some file', m', send (chunk id offset bytes) ∷ outs)
          | none ↦ elim digest [
            | some d ↦ (none, m, send (done id d) ∷ [])
            | none ↦
                let (m', outs) = fail id (codes "could not hash the file") m in (none, m', outs)
          ]
        ])
