-- ===== src/Session/Secure/Send.antt =====
-- crates/session/src/secure.rs: the sequence numbers of `InputClock`, `SecureTx::send_input` and
-- `push_ctl`. The unbounded channel and the writer's queue are lists; the time is an argument.
pub mod Order
mod Tests
use remote_x.Prelude.{
  ℕ, ◌+◌, ◌-◌, ◌*◌, ◌/◌, ◌%◌, ◌^◌, Bool, true, false, List, [], ◌∷◌, ◌++◌, Option, none, some,
  nat_beq, if◌then◌else◌,
}
use remote_x.Common.Event.{InputEvent}
use remote_x.Session.InputThread.{is_move}

pub record Queued : Type 0 where
  pub seq : ℕ
  pub ev : InputEvent
  pub at : ℕ

-- CLOCK_SLOTS
abbrev pub clock_slots : ℕ
clock_slots = 1024

pub record InputClock : Type 0 where
  pub next : ℕ
  pub slots : ℕ → ℕ

abbrev pub bump : ℕ → ℕ
bump n = (n + 1) % 2 ^ 32

-- The number that is given out, and the clock, at a time in microseconds.
unfoldable pub stamp : ℕ → InputClock → ℕ × InputClock
stamp now_us c =
    let seq = if nat_beq (bump c.next) 0 then bump (bump c.next) else bump c.next in
    (
      seq,
      record {
        next = seq;
        slots = λ i.
            if nat_beq i (seq % clock_slots)
            then now_us * 65536 % 2 ^ 64 + seq % 65536
            else c.slots i;
      },
    )

unfoldable pub age_us : ℕ → ℕ → InputClock → Option ℕ
age_us seq now_us c =
    let v = c.slots (seq % clock_slots) in
    if (if nat_beq v 0 then false else nat_beq (v % 65536) (seq % 65536))
    then some (now_us - v / 65536)
    else none

pub record SecureTx : Type 0 where
  pub clock : InputClock
  pub ctl : List Queued
  pub pending_move : Option Queued
  pub moves_coalesced : ℕ

abbrev pub waiting : Option Queued → List Queued
waiting none = []
waiting (some q) = q ∷ []

-- A move takes the slot, with the time of the one that it replaces.
unfoldable pub put_move : Queued → SecureTx → SecureTx
put_move item tx = elim tx.pending_move [
  | none ↦ record tx { pending_move = some item }
  | some old ↦ record tx {
    pending_move = some (record item { at = old.at });
    moves_coalesced = tx.moves_coalesced + 1;
  }
]

-- Anything else goes into the queue, behind the move that waits.
unfoldable pub put_other : Queued → SecureTx → SecureTx
put_other item tx = record tx {
  pending_move = none;
  ctl = (tx.ctl ++ waiting tx.pending_move) ++ (item ∷ []);
}

unfoldable pub send_input : ℕ → InputEvent → SecureTx → ℕ × SecureTx
unfolding stamp put_move put_other
send_input now ev tx =
    let (seq, clock) = stamp now tx.clock in
    let item : Queued = record { seq = seq; ev = ev; at = now } in
    let tx' : SecureTx = record tx { clock = clock } in
    (seq, if is_move ev then put_move item tx' else put_other item tx')

-- The queue and how many moves were replaced.
unfoldable pub push_ctl : List Queued → Queued → List Queued × ℕ
push_ctl [] item = (item ∷ [], 0)
push_ctl (b ∷ []) item =
    if (if is_move item.ev then is_move b.ev else false)
    then (record item { at = b.at } ∷ [], 1)
    else (b ∷ item ∷ [], 0)
push_ctl (b ∷ c ∷ queue) item = let (rest, n) = push_ctl (c ∷ queue) item in (b ∷ rest, n)
