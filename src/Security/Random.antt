-- ===== src/Security/Random.antt =====
-- crates/security/src/password.rs and crates/security/src/ids.rs: random passwords and ids by
-- rejection. The random bytes are an argument, one batch for each call of `random_bytes`; `none`
-- means that the batches ran out. `char::to_uppercase` is a parameter.
pub mod Ends
mod Tests
use remote_x.Prelude.{
  ℕ, zero, suc, ◌+◌, ◌-◌, ◌*◌, ◌%◌, ◌^◌, Bool, true, false, ◌||◌, not, List, [], ◌∷◌, ◌++◌, Option,
  none, some, ltb, leb, nat_beq, if◌then◌else◌, get_elem?, length, retain,
}
use remote_x.Common.Text.{Text, codes}
use remote_x.Common.Ids.{DeviceId, from_number}

abbrev pub alphabet : Text
alphabet = codes "ABCDEFGHJKMNPQRSTUVWXYZ23456789"

abbrev pub temp_password_len : ℕ
temp_password_len = 6

-- The largest multiple of the alphabet's length that a byte can reach.
unfoldable pub limit : ℕ
limit = 256 - 256 % length alphabet

unfoldable pub letter : ℕ → ℕ
letter b = elim (get_elem? alphabet (b % length alphabet)) [ none ↦ 0 | some c ↦ c ]

-- The bytes of one batch.
unfoldable pub take_letters : List ℕ → Text → Text
unfolding limit letter
take_letters [] out = out
take_letters (b ∷ batch) out =
    if ltb b limit
    then (if ltb (length out) temp_password_len
        then take_letters batch (out ++ (letter b ∷ []))
        else take_letters batch out)
    else take_letters batch out

unfoldable pub fill_password : List (List ℕ) → Text → Option Text
unfolding take_letters
fill_password [] out = if ltb (length out) temp_password_len then none else some out
fill_password (batch ∷ batches) out =
    let rest = fill_password batches (take_letters batch out) in
    if ltb (length out) temp_password_len then rest else some out

unfoldable pub generate_temp_password : List (List ℕ) → Option Text
unfolding fill_password
generate_temp_password batches = fill_password batches []

unfoldable pub normalize_temp_password : (ℕ → Bool) → (ℕ → Text) → Text → Text
normalize_temp_password is_whitespace upper [] = []
normalize_temp_password is_whitespace upper (c ∷ s) =
    let rest = normalize_temp_password is_whitespace upper s in
    if is_whitespace c || nat_beq c 45 then rest else upper c ++ rest

abbrev pub low : ℕ
low = 100_000_000

abbrev pub span : ℕ
span = 900_000_000

-- The largest multiple of the span below 2 ^ 32.
abbrev pub id_limit : ℕ
id_limit = 4_294_967_295 - 4_294_967_295 % 900_000_000

-- `from_le_bytes` of four random bytes is one number of 32 bits.
unfoldable pub generate_device_id : List ℕ → Option DeviceId
generate_device_id [] = none
generate_device_id (n ∷ draws) =
    let rest = generate_device_id draws in
    if ltb n id_limit then some (from_number (low + n % span)) else rest
