-- ===== src/Session/Secure/Fragment.antt =====
-- crates/session/src/secure.rs: `Outgoing::next_unit`, which cuts a message into units, and the
-- reader's reassembly of them. A unit is a header byte, `lane << 2 | flag`, and a payload.
pub mod Roundtrip
pub mod Lanes
mod Tests
use remote_x.Prelude.{
  ℕ, zero, suc, ◌+◌, ◌-◌, ◌*◌, ◌/◌, ◌%◌, ◌^◌, Bool, true, false, ◌&&◌, List, [], ◌∷◌, ◌++◌, Option,
  none, some, ltb, leb, nat_beq, length, take, drop, if◌then◌else◌,
}
use remote_x.Prelude.Result.{Result, ok, err}

-- FRAGMENT and wire::MAX_FRAME
abbrev pub fragment : ℕ
fragment = 8 * 1024

abbrev pub max_frame : ℕ
max_frame = 8 * 1024 * 1024

abbrev pub lane_ctl : ℕ
lane_ctl = 0

abbrev pub lane_video : ℕ
lane_video = 1

abbrev pub lane_bulk : ℕ
lane_bulk = 2

abbrev pub whole : ℕ
whole = 0

abbrev pub first : ℕ
first = 1

abbrev pub mid : ℕ
mid = 2

abbrev pub last : ℕ
last = 3

pub record Outgoing : Type 0 where
  pub lane : ℕ
  pub bytes : List ℕ
  pub off : ℕ

-- The flag of the next unit and the length of its payload.
unfoldable pub plan : ℕ → ℕ → ℕ × ℕ
plan off remaining =
    if nat_beq off 0 && leb remaining fragment
    then (whole, remaining)
    else if nat_beq off 0
    then (first, fragment)
    else if leb remaining fragment
    then (last, remaining)
    else (mid, fragment)

-- The next unit, and whether the message is now complete.
unfoldable pub next_unit : Outgoing → List ℕ × Bool × Outgoing
unfolding plan
next_unit o =
    let (flag, n) = plan o.off (length o.bytes - o.off) in
    (
      (o.lane * 4 + flag) ∷ take n (drop o.off o.bytes),
      leb (length o.bytes) (o.off + n),
      record o { off = o.off + n },
    )

-- Every unit of a message, with fuel; `none` means that the fuel ran out.
unfoldable pub units : ℕ → Outgoing → Option (List (List ℕ))
units zero o = none
units (suc fuel) o =
    let (unit, complete, o') = next_unit o in
    let rest = units fuel o' in
    if complete then some (unit ∷ []) else (elim rest [ none ↦ none | some us ↦ some (unit ∷ us) ])

-- Why the reader closes the session.
pub data Close : Type 0 where
  empty_frame unknown_lane no_start oversized : Close

-- One lane's reassembly: the message that is now complete, if any, and the buffer.
unfoldable pub lane_receive : List ℕ → ℕ → List ℕ → Result (Option (List ℕ) × List ℕ) Close
lane_receive partial flag body =
    if nat_beq flag whole
    then ok (some body, partial)
    else (let start = if nat_beq flag first then [] else partial in
        if (if nat_beq flag first then false else nat_beq (length partial) 0)
        then err no_start
        else if ltb max_frame (length start + length body)
        then err oversized
        else if nat_beq flag last
        then ok (some (start ++ body), [])
        else ok (none, start ++ body))

-- The three buffers, by lane.
abbrev pub Partial : Type 0
Partial = ℕ → List ℕ

abbrev pub no_partial : Partial
no_partial lane = []

unfoldable pub update : Partial → ℕ → List ℕ → Partial
update p lane b k = if nat_beq lane k then b else p k

-- What a unit on a lane does to the reader: the lane and the bytes of a message that it completes.
unfoldable pub deliver : Partial → ℕ → ℕ → List ℕ → Result (Option (ℕ × List ℕ) × Partial) Close
deliver p lane flag body =
    if ltb 2 lane then err unknown_lane else (elim (lane_receive (p lane) flag body) [
      | err why ↦ err why
      | ok (complete, b) ↦
          ok (elim complete [ none ↦ none | some bytes ↦ some (lane, bytes) ], update p lane b)
    ])

-- What a decrypted unit does.
unfoldable pub receive : Partial → List ℕ → Result (Option (ℕ × List ℕ) × Partial) Close
receive p [] = err empty_frame
receive p (hdr ∷ body) = deliver p (hdr / 4) (hdr % 4) body

abbrev pub add_message {ℓ} : {A : Type ℓ} → Option A → List A → List A
add_message none ms = ms
add_message (some m) ms = m ∷ ms

-- The messages that a sequence of units completes, in order, and the buffers that it leaves.
unfoldable pub receive_all : Partial → List (List ℕ) → Result (List (ℕ × List ℕ) × Partial) Close
receive_all p [] = ok ([], p)
receive_all p (u ∷ us) = elim (receive p u) [
  | err why ↦ err why
  | ok (m, p') ↦ elim (receive_all p' us) [
    | err why ↦ err why
    | ok (ms, p'') ↦ ok (add_message m ms, p'')
  ]
]
