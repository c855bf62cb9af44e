-- ===== src/Session/Transfer/State.antt =====
-- crates/session/src/transfer.rs: the records of `FileManager`, its bookkeeping, and the steps
-- that commands and messages share. A call gives the new state and what it sends and reports, in
-- order. A `Ctl` that a task shares is part of its transfer. An instant is a number of nanoseconds.
use remote_x.Prelude.{
  ℕ, ◌+◌, ◌*◌, ◌%◌, ◌^◌, Bool, true, false, List, [], ◌∷◌, ◌++◌, Option, none, some, if◌then◌else◌,
}
use remote_x.Prelude.Eq.{nat_eq}
use remote_x.Common.Text.{Text, text_eq}
use remote_x.Common.Peer.{FileMsg, DirEntry}
use remote_x.Map
use remote_x.Map.{Map, lookup, insert}
use remote_x.Files.Transfer.{Disk, IncomingFile}

pub data Side : Type 0 where
  host viewer : Side

pub data TransferStatus : Type 0 where
  pending active paused completed failed cancelled : TransferStatus

pub record FilePolicy : Type 0 where
  pub side : Side
  pub ask_before_receiving : Bool
  pub max_file_size : ℕ
  pub max_active : ℕ

pub record Ctl : Type 0 where
  pub paused : Bool
  pub cancelled : Bool

pub record TransferInfo : Type 0 where
  pub id : ℕ
  pub name : Text
  pub size : ℕ
  pub transferred : ℕ
  pub upload : Bool
  pub status : TransferStatus
  pub speed_bps : ℕ
  pub eta_secs : Option ℕ
  pub error : Option Text

pub record Speed : Type 0 where
  pub last_emit : ℕ
  pub window : List (ℕ × ℕ)

pub record Transfer : Type 0 where
  pub info : TransferInfo
  pub path : Text
  pub ctl : Ctl
  pub incoming : Option IncomingFile
  pub speed : Speed
  pub queued : Bool
  pub resume_from : ℕ

pub record FileManager : Type 0 where
  pub policy : FilePolicy
  pub allowed : Bool
  pub next : ℕ
  pub transfers : Map ℕ Transfer
  pub accept_offers_until : Option ℕ
  pub pending_approval : Map ℕ (Text × ℕ)
  pub disk : Disk

-- What a call does besides: messages to the peer, events for the user, and the task it starts.
pub data Out : Type 0 where
  send : FileMsg → Out
  transfer_event : TransferInfo → Out
  file_request : ℕ → Text → ℕ → Out
  listing_event : Text → List DirEntry → Option Text → Out
  spawn_stream : ℕ → Text → ℕ → Out

abbrev pub Outcome : Type 0
Outcome = FileManager × List Out

-- One call after another.
infixl 5 ◌>>◌
abbrev pub ◌>>◌ : Outcome → (FileManager → Outcome) → Outcome
(m, outs) >> f = let (m', more) = f m in (m', outs ++ more)

unfoldable pub new : FilePolicy → Bool → Disk → FileManager
new policy allowed disk = record {
  policy = policy;
  allowed = allowed;
  next = 0;
  transfers = Map.empty;
  accept_offers_until = none;
  pending_approval = Map.empty;
  disk = disk;
}

abbrev pub is_viewer : Side → Bool
is_viewer viewer = true
is_viewer host = false

abbrev pub bit : Bool → ℕ
bit b = if b then 1 else 0

-- Ids are even on the host's side and odd on the viewer's.
unfoldable pub alloc_id : FileManager → ℕ × FileManager
alloc_id m = (
  (m.next * 2 + bit (is_viewer m.policy.side)) % 2 ^ 64,
  record m { next = (m.next + 1) % 2 ^ 64 },
)

unfoldable pub is_active : TransferStatus → Bool
is_active active = true
is_active s = false

-- `cancel_all` ends the transfers that have not come to an end.
unfoldable pub is_open : TransferStatus → Bool
is_open active = true
is_open pending = true
is_open paused = true
is_open s = false

unfoldable pub update : ℕ → (Transfer → Transfer) → FileManager → Outcome
update id f m = elim (lookup id m.transfers) [
  | none ↦ (m, [])
  | some t ↦ (record m { transfers = insert id (f t) m.transfers }, transfer_event (f t).info ∷ [])
]

abbrev pub with_status : TransferStatus → Transfer → Transfer
with_status s t = record t { info = record t.info { status = s; speed_bps = 0 } }

unfoldable pub failing : Text → Transfer → Transfer
failing why t = record t {
  info = record t.info { status = failed; error = some why; speed_bps = 0; eta_secs = none };
  incoming = none;
}

unfoldable pub fail : ℕ → Text → FileManager → Outcome
unfolding update failing
fail id why m = update id (failing why) m

unfoldable pub fresh : ℕ → Text → ℕ → Bool → Text → TransferStatus → ℕ → Transfer
fresh id name size upload path status now = record {
  info = record {
    id = id;
    name = name;
    size = size;
    transferred = 0;
    upload = upload;
    status = status;
    speed_bps = 0;
    eta_secs = none;
    error = none;
  };
  path = path;
  ctl = record { paused = false; cancelled = false };
  incoming = none;
  speed = record { last_emit = now; window = [] };
  queued = false;
  resume_from = 0;
}

unfoldable pub track : ℕ → Text → ℕ → Bool → Text → TransferStatus → ℕ → FileManager → Outcome
unfolding fresh
track id name size upload path status now m =
    let t = fresh id name size upload path status now in
    (record m { transfers = insert id t m.transfers }, transfer_event t.info ∷ [])

unfoldable pub count_active : Map ℕ Transfer → ℕ
count_active [] = 0
count_active ((id, t) ∷ m) = bit (is_active t.info.status) + count_active m

unfoldable pub active_count : FileManager → ℕ
active_count m = count_active m.transfers

-- A change of a transfer that the user is not told of.
unfoldable pub silently : ℕ → (Transfer → Transfer) → FileManager → FileManager
silently id f m = elim (lookup id m.transfers) [
  | none ↦ m
  | some t ↦ record m { transfers = insert id (f t) m.transfers }
]
