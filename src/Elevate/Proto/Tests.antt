-- ===== src/Elevate/Proto/Tests.antt =====
-- The theorem about the pipe with a codec that writes a message as one byte.
use remote_x.Prelude.{ℕ, ◌≡◌, refl, List, [], ◌∷◌, ◌++◌, Option, none, some, arith}
use remote_x.Prelude.Result.{ok}
use remote_x.Elevate.Proto.{Codec, to_le_bytes, write_msg}
use remote_x.Elevate.Proto.Stream.{write_all, read_all, read_all-write_all}

abbrev one_byte : ℕ → Option (List ℕ)
one_byte v = some (v ∷ [])

abbrev first_byte : List ℕ → Option (ℕ × List ℕ)
first_byte [] = none
first_byte (b ∷ bs) = some (b, bs)

abbrev bytes : Codec ℕ
bytes = record {
  to_stdvec = one_byte;
  take_from_bytes = first_byte;
  back = λ v body e. ground (arith, e);
  some_bytes = λ v body e z. ground (arith, e, z);
}

read_all-write_all_example :
    read_all bytes 2 ((1 ∷ 0 ∷ 0 ∷ 0 ∷ 7 ∷ 1 ∷ 0 ∷ 0 ∷ 0 ∷ 8 ∷ []) ++ (9 ∷ []))
    ≡ (ok (7 ∷ 8 ∷ []), 9 ∷ [])
unfolding write_all write_msg to_le_bytes
read_all-write_all_example =
    read_all-write_all bytes (7 ∷ 8 ∷ []) (1 ∷ 0 ∷ 0 ∷ 0 ∷ 7 ∷ 1 ∷ 0 ∷ 0 ∷ 0 ∷ 8 ∷ []) (9 ∷ []) refl
