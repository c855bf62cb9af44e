-- ===== src/Files/Transfer.antt =====
-- crates/files/src/lib.rs: the two ends of a transfer. A disk maps paths to contents; a path is a
-- text, `dir.join(rel)` is the parameter `place` of an accepted name, and SHA-256 is a parameter.
-- Failures of the disk itself are not modelled.
pub mod Receive
pub mod Roundtrip
mod Tests
use remote_x.Prelude.{
  ℕ, zero, suc, ◌+◌, ◌-◌, ◌*◌, Bool, true, false, not, List, [], ◌∷◌, ◌++◌, Option, none, some, ltb,
  leb, nat_beq, if◌then◌else◌, length, take, drop, min,
}
use remote_x.Prelude.Eq.{◌==◌}
use remote_x.Prelude.Result.{Result, ok, err}
use remote_x.Map.{Map, lookup, insert, remove}
use remote_x.Common.Text.{Text, codes, text_beq, text_eq}
use remote_x.Files.Names.{FileError, too_large, out_of_order, bad_name}

abbrev pub chunk : ℕ
chunk = 64 * 1024

abbrev pub Disk : Type 0
Disk = Map Text (List ℕ)

unfoldable pub part_path : Text → Text
part_path target = target ++ codes ".part"

-- `exists()`
unfoldable pub exists : Disk → Text → Bool
exists disk p = elim (lookup p disk) [ none ↦ false | some bytes ↦ true ]

unfoldable pub is_free : Disk → Text → Bool
unfolding exists part_path
is_free disk p = if exists disk p then false else not (exists disk (part_path p))

-- `(1..10_000).map(numbered).find(is_free)`, with the number of candidates that are left.
unfoldable pub find_free : (ℕ → Text) → Disk → ℕ → ℕ → Option Text
unfolding is_free
find_free numbered disk i zero = none
find_free numbered disk i (suc left) =
    let rest = find_free numbered disk (i + 1) left in
    if is_free disk (numbered i) then some (numbered i) else rest

-- The candidate, or the first of its numbered variants, `limit` at most, that is free.
unfoldable pub unique_among : ℕ → Text → (ℕ → Text) → Disk → Text
unfolding find_free
unique_among limit candidate numbered disk =
    if is_free disk candidate
    then candidate
    else (elim (find_free numbered disk 1 limit) [ none ↦ candidate | some p ↦ p ])

unfoldable pub unique_path : Text → (ℕ → Text) → Disk → Text
unfolding unique_among
unique_path candidate numbered disk = unique_among 9999 candidate numbered disk

pub record IncomingFile : Type 0 where
  pub target : Text
  pub part : Text
  pub expected : ℕ
  pub received : ℕ

-- What a path holds; `metadata(..).len()` is its length, and 0 where there is no file.
abbrev pub content : Option (List ℕ) → List ℕ
content none = []
content (some bytes) = bytes

-- The length of the part file to resume from.
unfoldable pub existing : Bool → Text → ℕ → Disk → ℕ
existing resume part expected disk =
    let n = length (content (lookup part disk)) in
    if resume then (if leb n expected then n else 0) else 0

-- The part file of a target, opened (and truncated unless it is resumed).
unfoldable pub open_part : Text → ℕ → Bool → Disk → IncomingFile × Disk
unfolding existing part_path
open_part target expected resume disk =
    let part = part_path target in
    let n = existing resume part expected disk in
    (
      record { target = target; part = part; expected = expected; received = n },
      insert part (if nat_beq n 0 then [] else content (lookup part disk)) disk,
    )

-- `open` of an accepted name, from the path it stands for and its numbered variants.
unfoldable pub open_file :
    Text → (ℕ → Text) → ℕ → ℕ → Bool → Disk → Result IncomingFile FileError × Disk
unfolding unique_path open_part
open_file candidate numbered expected max_size resume disk =
    if ltb max_size expected
    then (err too_large, disk)
    else (let target = if resume then candidate else unique_path candidate numbered disk in
        let (f, disk') = open_part target expected resume disk in (ok f, disk'))

-- `seek` and `write_all`: what was there stays before the offset and after the new bytes.
unfoldable pub write_at : ℕ → List ℕ → List ℕ → List ℕ
write_at offset new old = take offset old ++ (new ++ drop (offset + length new) old)

-- The error, if any, and the new state.
unfoldable pub write_chunk :
    ℕ → List ℕ → IncomingFile → Disk → Option FileError × IncomingFile × Disk
unfolding write_at
write_chunk offset bytes f disk =
    if (if nat_beq offset f.received then ltb f.expected (f.received + length bytes) else true)
    then (some out_of_order, f, disk)
    else (
      none,
      record f { received = f.received + length bytes },
      insert f.part (write_at offset bytes (content (lookup f.part disk))) disk,
    )

module _ (sha256 : List ℕ → List ℕ) where
  -- `finish`: the length, the hash of the whole part file, then the rename.
  unfoldable pub finish : List ℕ → IncomingFile → Disk → Result Text FileError × Disk
  finish digest f disk =
      if not (nat_beq f.received f.expected)
      then (err out_of_order, disk)
      else (let bytes = content (lookup f.part disk) in
          if not (sha256 bytes == digest)
          then (err bad_name, remove f.part disk)
          else (ok f.target, insert f.target bytes (remove f.part disk)))

pub record OutgoingFile : Type 0 where
  pub bytes : List ℕ
  pub offset : ℕ

-- `next_chunk`, where the system's read returns at most `suc short` bytes.
unfoldable pub next_chunk : ℕ → OutgoingFile → Option (ℕ × List ℕ) × OutgoingFile
next_chunk short o =
    let got = take (min chunk (suc short)) (drop o.offset o.bytes) in
    if nat_beq (length got) 0
    then (none, o)
    else (some (o.offset, got), record o { offset = o.offset + length got })
