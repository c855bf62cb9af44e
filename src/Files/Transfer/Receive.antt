-- ===== src/Files/Transfer/Receive.antt =====
-- What a finished transfer leaves on the disk, and that a new file takes a free path.
use remote_x.Prelude.{
  ℕ, zero, suc, ◌+◌, ◌≡◌, ◌≢◌, ◌≤◌, ◌<◌, refl, ap, sym, subst, ◌∙◌, Bool, true, false, List, [],
  ◌∷◌, ◌++◌, some, arith, ltb, if◌then◌else◌, length, take, drop, length-append, length-take,
  length-drop, Bool-cases, ◌⊎◌, inl, inr,
}
use remote_x.Prelude.Result.{Result, ok, err}
use remote_x.Map.{lookup, remove}
use remote_x.Map.Laws.{lookup-insert}
use remote_x.Common.Text.{Text, text_beq_iff, text_eq}
use remote_x.Files.Names.{FileError, too_large}
use remote_x.Files.Transfer.{
  Disk, part_path, is_free, find_free, unique_among, unique_path, IncomingFile, existing, content,
  open_part, open_file, write_at, write_chunk, finish,
}

-- The part file is as long as the transfer says, and no longer than the file is to be.
abbrev pub IsConsistent : IncomingFile → Disk → Type 0
IsConsistent f disk =
    (length (content (lookup f.part disk)) ≡ f.received) × (f.received ≤ f.expected)

length-write_at :
    (offset : ℕ) (new old : List ℕ)
    → length old ≡ offset
    → length (write_at offset new old) ≡ offset + length new
unfolding write_at
length-write_at offset new old e = ground (
  arith,
  length-append (take offset old) (new ++ drop (offset + length new) old),
  length-append new (drop (offset + length new) old),
  length-take offset old,
  length-drop (offset + length new) old,
)

open_part-IsConsistent :
    (target : Text) (expected : ℕ) (resume : Bool) (disk : Disk)
    → IsConsistent
        (open_part target expected resume disk).0
        (open_part target expected resume disk).1
unfolding open_part existing
open_part-IsConsistent target expected resume disk = ground (
  arith,
  text_beq_iff (part_path target) (part_path target),
  lookup-insert (part_path target) (part_path target) [] disk,
  lookup-insert (part_path target) (part_path target) (content (lookup (part_path target) disk))
      disk,
)

expected-open_part :
    (target : Text) (expected : ℕ) (resume : Bool) (disk : Disk)
    → (open_part target expected resume disk).0.expected ≡ expected
unfolding open_part
expected-open_part target expected resume disk = refl

ltb-false : (a b : ℕ) → ltb a b ≡ false → b ≤ a
ltb-false a b h = ground arith

same_transfer :
    (f g : IncomingFile) (d d' : Disk) → f ≡ g → d' ≡ d → IsConsistent g d → IsConsistent f d'
same_transfer f g d d' a b h =
    subst (λ x. IsConsistent x d') (sym a) (subst (λ x. IsConsistent g x) (sym b) h)

guarded :
    (b : Bool) (why : FileError) (g f : IncomingFile) (d0 d d' : Disk)
    → ◌≡◌ {A = Result IncomingFile FileError × Disk}
        (if b then (err why, d0) else (ok g, d))
        (ok f, d')
    → (b ≡ false) × (f ≡ g) × (d' ≡ d)
guarded true why g f d0 d d' e = absurd (ground (arith, e))
guarded false why g f d0 d d' e = ground (arith, e)

open_file-IsConsistent :
    (candidate : Text) (numbered : ℕ → Text) (expected max_size : ℕ) (resume : Bool)
    (disk disk' : Disk) (f : IncomingFile)
    → open_file candidate numbered expected max_size resume disk ≡ (ok f, disk')
    → IsConsistent f disk' × (f.expected ≡ expected) × (expected ≤ max_size)
unfolding open_file
open_file-IsConsistent candidate numbered expected max_size resume disk disk' f e =
    let target = if resume then candidate else unique_path candidate numbered disk in
    let (c, a, b) = guarded (ltb max_size expected) too_large _ f disk _ disk' e in
    (
      same_transfer f _ _ disk' a b (open_part-IsConsistent target expected resume disk),
      ap (λ g. g.expected) a ∙ expected-open_part target expected resume disk,
      ltb-false max_size expected c,
    )

write_chunk-IsConsistent :
    (offset : ℕ) (bytes : List ℕ) (f : IncomingFile) (disk : Disk)
    → IsConsistent f disk
    → IsConsistent (write_chunk offset bytes f disk).1 (write_chunk offset bytes f disk).2
unfolding write_chunk
write_chunk-IsConsistent offset bytes f disk (h, k) = ground (
  arith,
  length-write_at offset bytes (content (lookup f.part disk)),
  lookup-insert f.part f.part (write_at offset bytes (content (lookup f.part disk))) disk,
  text_beq_iff f.part f.part,
)

-- Chunks that arrive one after another; one that is refused changes nothing.
unfoldable pub write_all : List (ℕ × List ℕ) → IncomingFile → Disk → IncomingFile × Disk
write_all [] f disk = (f, disk)
write_all ((offset, bytes) ∷ chunks) f disk =
    let (r, f', disk') = write_chunk offset bytes f disk in write_all chunks f' disk'

expected-write_chunk :
    (offset : ℕ) (bytes : List ℕ) (f : IncomingFile) (disk : Disk)
    → (write_chunk offset bytes f disk).1.expected ≡ f.expected
unfolding write_chunk
expected-write_chunk offset bytes f disk = ground arith

target-write_chunk :
    (offset : ℕ) (bytes : List ℕ) (f : IncomingFile) (disk : Disk)
    → (write_chunk offset bytes f disk).1.target ≡ f.target
unfolding write_chunk
target-write_chunk offset bytes f disk = ground arith

write_all-IsConsistent :
    (chunks : List (ℕ × List ℕ)) (f : IncomingFile) (disk : Disk)
    → IsConsistent f disk
    → IsConsistent (write_all chunks f disk).0 (write_all chunks f disk).1
      × ((write_all chunks f disk).0.expected ≡ f.expected)
      × ((write_all chunks f disk).0.target ≡ f.target)
unfolding write_all
write_all-IsConsistent [] f disk h = (h, refl, refl)
write_all-IsConsistent ((offset, bytes) ∷ chunks) f disk h =
    let (a, b, c) =
      write_all-IsConsistent chunks (write_chunk offset bytes f disk).1
        (write_chunk offset bytes f disk).2 (write_chunk-IsConsistent offset bytes f disk h) in
    (a, b ∙ expected-write_chunk offset bytes f disk, c ∙ target-write_chunk offset bytes f disk)

module _ (sha256 : List ℕ → List ℕ) where
  -- Whatever chunks arrive after a transfer was opened, while nothing else writes to the disk:
  -- if it finishes without an error, the path that it returns is the transfer's target, and the
  -- disk then holds a file there that has the announced length, at most the cap, and the
  -- announced hash.
  pub finish-verified :
      (candidate : Text) (numbered : ℕ → Text) (expected max_size : ℕ) (resume : Bool)
      (disk disk' : Disk) (f : IncomingFile) (chunks : List (ℕ × List ℕ)) (digest : List ℕ)
      (path : Text)
      → open_file candidate numbered expected max_size resume disk ≡ (ok f, disk')
      → (finish sha256 digest (write_all chunks f disk').0 (write_all chunks f disk').1).0 ≡ ok path
      → (bytes : List ℕ) × (path ≡ f.target)
        × (lookup path
              (finish sha256 digest (write_all chunks f disk').0 (write_all chunks f disk').1).1
            ≡ some bytes)
        × (length bytes ≡ expected)
        × (expected ≤ max_size)
        × (sha256 bytes ≡ digest)
  unfolding finish
  finish-verified candidate numbered expected max_size resume disk disk' f chunks digest path o e =
      let (h, x, m) =
        open_file-IsConsistent candidate numbered expected max_size resume disk disk' f o in
      let ((a, l), b, c) = write_all-IsConsistent chunks f disk' h in
      let g = (write_all chunks f disk').0 in
      let d = (write_all chunks f disk').1 in
      let bytes = content (lookup g.part d) in
      let p : path ≡ g.target = ground (arith, e) in
      (
        bytes,
        p ∙ c,
        ground (
          arith,
          e,
          p,
          lookup-insert g.target path bytes (remove g.part d),
          text_beq_iff g.target path,
        ),
        ground (arith, e, a, b, x),
        m,
        ground (arith, e, text_beq_iff (sha256 bytes) digest),
      )

true-false : (b : Bool) → b ≡ true → b ≡ false → ⊥
true-false b h k = ground (arith, h, k)

find_free-found :
    (numbered : ℕ → Text) (disk : Disk) (left i j : ℕ)
    → i ≤ j
    → j < i + left
    → is_free disk (numbered j) ≡ true
    → (p : Text) × (find_free numbered disk i left ≡ some p) × (is_free disk p ≡ true)
unfolding find_free
find_free-found numbered disk zero i j l m h = absurd (omega arith)
find_free-found numbered disk (suc left) i j l m h = elim (Bool-cases (is_free disk (numbered i))) [
  | inl q ↦ (numbered i, rw q refl, q)
  | inr q ↦
      let ne : i ≢ j = λ e.
        true-false (is_free disk (numbered j)) h
          (subst (λ k. is_free disk (numbered k) ≡ false) e q) in
      let (p, a, b) = find_free-found numbered disk left (i + 1) j (ground arith) (omega arith) h in
      (p, rw q a, b)
]

unique_among-free :
    (limit : ℕ) (candidate : Text) (numbered : ℕ → Text) (disk : Disk)
    → (is_free disk candidate ≡ true)
      ⊎ ((j : ℕ) × (1 ≤ j) × (j ≤ limit) × (is_free disk (numbered j) ≡ true))
    → is_free disk (unique_among limit candidate numbered disk) ≡ true
unfolding unique_among
unique_among-free limit candidate numbered disk (inl h) = rw h h
unique_among-free limit candidate numbered disk (inr (j, l, m, h)) =
    elim (Bool-cases (is_free disk candidate)) [
      | inl q ↦ rw q q
      | inr q ↦
          let (p, a, b) = find_free-found numbered disk limit 1 j l (omega arith) h in rw (q, a) b
    ]

-- If the candidate or one of its 9999 numbered variants is free, meaning that neither it nor its
-- part file exists, then the path that a new transfer takes is free: it overwrites nothing.
pub unique_path-free :
    (candidate : Text) (numbered : ℕ → Text) (disk : Disk)
    → (is_free disk candidate ≡ true)
      ⊎ ((j : ℕ) × (1 ≤ j) × (j ≤ 9999) × (is_free disk (numbered j) ≡ true))
    → is_free disk (unique_path candidate numbered disk) ≡ true
unfolding unique_path
unique_path-free candidate numbered disk h = unique_among-free 9999 candidate numbered disk h
