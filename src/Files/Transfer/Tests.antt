-- ===== src/Files/Transfer/Tests.antt =====
-- The theorems about transfers on a small disk.
use remote_x.Prelude.{ℕ, ◌≤◌, ◌++◌, ◌≡◌, refl, true, false, List, [], ◌∷◌, some, arith, length}
use remote_x.Prelude.Result.{ok}
use remote_x.Map.{lookup, insert, remove}
use remote_x.Common.Text.{Text, codes, text_beq, text_eq}
use remote_x.Files.Transfer.{
  Disk, part_path, exists, is_free, unique_among, unique_path, IncomingFile, existing, content,
  open_part, open_file, write_at, write_chunk, finish, OutgoingFile,
}
use remote_x.Files.Transfer.Receive.{write_all, finish-verified}
use remote_x.Files.Transfer.Roundtrip.{Agree, pump, finish-pump}

-- A stand-in for a hash.
abbrev digest : List ℕ → List ℕ
digest bytes = length bytes ∷ []

abbrev target : Text
target = codes "a"

abbrev variant : ℕ → Text
variant i = codes "a" ++ (i ∷ [])

abbrev incoming : IncomingFile
incoming = record { target = target; part = part_path target; expected = 2; received = 0 }

abbrev disk : Disk
disk = (part_path target, []) ∷ []

abbrev chunks : List (ℕ × List ℕ)
chunks = (0, 7 ∷ []) ∷ (5, 9 ∷ []) ∷ (1, 8 ∷ []) ∷ []

opened : open_file target variant 2 10 false [] ≡ (ok incoming, disk)
unfolding open_file open_part unique_path unique_among is_free exists existing part_path lookup
    insert remove text_beq
opened = refl

finished :
    (finish digest (2 ∷ []) (write_all chunks incoming disk).0 (write_all chunks incoming disk).1).0
    ≡ ok target
unfolding finish write_all write_chunk write_at part_path lookup insert remove text_beq
finished = refl

finish-verified_example :
    (bytes : List ℕ) × (target ≡ target)
    × (lookup target
          (finish digest
            (2 ∷ [])
            (write_all chunks incoming disk).0
            (write_all chunks incoming disk).1).1
        ≡ some bytes)
    × (length bytes ≡ 2)
    × (2 ≤ 10)
    × (digest bytes ≡ 2 ∷ [])
finish-verified_example =
    finish-verified digest target variant 2 10 false [] disk incoming chunks (2 ∷ []) target opened
      finished

-- `a` exists, and its first variant is free.
abbrev taken : Disk
taken = (target, 1 ∷ []) ∷ []

variant_free : is_free taken (variant 1) ≡ true
unfolding is_free exists part_path lookup text_beq
variant_free = refl

abbrev outgoing : OutgoingFile
outgoing = record { bytes = 7 ∷ 8 ∷ []; offset = 0 }

part_empty : content (lookup (part_path target) disk) ≡ []
unfolding lookup part_path text_beq
part_empty = refl

agree : Agree outgoing incoming disk
agree = record { at = refl; size = refl; inside = omega arith; have = part_empty }

finish-pump_example :
    (f' : IncomingFile) × (disk' : Disk) × (pump (λ n. 0) 3 outgoing incoming disk
      ≡ some (f', disk'))
    × ((finish digest (digest (7 ∷ 8 ∷ [])) f' disk').0 ≡ ok target)
    × (lookup target (finish digest (digest (7 ∷ 8 ∷ [])) f' disk').1 ≡ some (7 ∷ 8 ∷ []))
finish-pump_example = finish-pump digest (λ n. 0) 3 outgoing incoming disk agree (omega arith)
