-- ===== src/Security/Random/Ends.antt =====
-- crates/security/src/password.rs and ids.rs: when the draws end, and what they give.
use remote_x.Prelude.{
  ℕ, zero, suc, nat_beq, min, ◌+◌, ◌%◌, ◌≤◌, ◌<◌, ◌≡◌, Bool, true, List, [], ◌∷◌, ◌++◌, Option,
  none, some, ltb, any, All, if_both, get_elem?, length, length-append, arith,
}
use remote_x.Common.Text.{Text}
use remote_x.Common.Ids.{DeviceId, from_number}
use remote_x.Common.Ids.Canonical.{IsCanonical, from_number-IsCanonical}
use remote_x.Security.Random.{
  alphabet, temp_password_len, limit, letter, take_letters, fill_password, generate_temp_password,
  low, span, id_limit, generate_device_id,
}

-- Whether a code is in the alphabet.
abbrev pub is_letter : ℕ → Bool
is_letter c = any (λ a. nat_beq a c) alphabet

abbrev nth : Text → ℕ → ℕ
nth xs i = elim (get_elem? xs i) [ none ↦ 0 | some c ↦ c ]

nth-any : (xs : Text) (i : ℕ) → i < length xs → any (λ a. nat_beq a (nth xs i)) xs ≡ true
nth-any [] i h = ground arith
nth-any (x ∷ xs) zero h = ground arith
nth-any (x ∷ xs) (suc i) h = ground (arith, nth-any xs i)

letter-is_letter : (b : ℕ) → is_letter (letter b) ≡ true
unfolding letter
letter-is_letter b = nth-any alphabet (b % length alphabet) (omega arith)

-- A password so far: letters alone, and not too many.
unfoldable IsPart : Text → Type 0
IsPart out = (length out ≤ temp_password_len) × All (λ c. is_letter c ≡ true) out

All-snoc :
    (out : Text) (c : ℕ)
    → All (λ d. is_letter d ≡ true) out
    → is_letter c ≡ true
    → All (λ d. is_letter d ≡ true) (out ++ (c ∷ []))
All-snoc [] c h e = (e, tt)
All-snoc (d ∷ out) c h e = (h.0, All-snoc out c h.1 e)

take_letters-IsPart : (batch : List ℕ) (out : Text) → IsPart out → IsPart (take_letters batch out)
unfolding take_letters IsPart
take_letters-IsPart [] out h = h
take_letters-IsPart (b ∷ batch) out h =
    if_both IsPart (ltb b limit)
      (λ e.
        if_both IsPart (ltb (length out) temp_password_len)
          (λ e'. take_letters-IsPart batch (out ++ (letter b ∷ [])) (
            ground (arith, e', length-append out (letter b ∷ [])),
            All-snoc out (letter b) h.1 (letter-is_letter b),
          ))
          (λ e'. take_letters-IsPart batch out h))
      (λ e. take_letters-IsPart batch out h)

-- A batch with a byte below the limit.
abbrev pub is_good : List ℕ → Bool
is_good batch = any (λ b. ltb b limit) batch

take_letters-ge : (batch : List ℕ) (out : Text) → length out ≤ length (take_letters batch out)
unfolding take_letters
take_letters-ge [] out = omega arith
take_letters-ge (b ∷ batch) out =
    let P : Text → Type 0 = λ r. length out ≤ length r in
    if_both P (ltb b limit)
      (λ e.
        if_both P (ltb (length out) temp_password_len)
          (λ e'. omega (
            arith,
            take_letters-ge batch (out ++ (letter b ∷ [])),
            length-append out (letter b ∷ []),
          ))
          (λ e'. take_letters-ge batch out))
      (λ e. take_letters-ge batch out)

-- A good batch adds a letter, as long as some are missing.
take_letters-more :
    (batch : List ℕ) (out : Text)
    → is_good batch ≡ true
    → min (length out + 1) temp_password_len ≤ length (take_letters batch out)
unfolding take_letters
take_letters-more [] out g = ground arith
take_letters-more (b ∷ batch) out g =
    let P : Text → Type 0 = λ r. min (length out + 1) temp_password_len ≤ length r in
    if_both P (ltb b limit)
      (λ e.
        if_both P (ltb (length out) temp_password_len)
          (λ e'. omega (
            arith,
            take_letters-ge batch (out ++ (letter b ∷ [])),
            length-append out (letter b ∷ []),
          ))
          (λ e'. ground (arith, e', take_letters-ge batch out)))
      (λ e. take_letters-more batch out (ground (arith, e, g)))

-- A password was made, of six letters.
unfoldable pub IsPassword : Option Text → Type 0
IsPassword none = ⊥
IsPassword (some pw) = (length pw ≡ temp_password_len) × All (λ c. is_letter c ≡ true) pw

fill_password-IsPassword :
    (batches : List (List ℕ)) (out : Text)
    → IsPart out
    → All (λ b. is_good b ≡ true) batches
    → temp_password_len ≤ length out + length batches
    → IsPassword (fill_password batches out)
unfolding fill_password IsPassword IsPart
fill_password-IsPassword [] out h good enough =
    if_both IsPassword (ltb (length out) temp_password_len) (λ e. ground (arith, e, enough))
      (λ e. (ground (arith, e, h.0), h.1))
fill_password-IsPassword (batch ∷ batches) out h good enough =
    if_both IsPassword (ltb (length out) temp_password_len)
      (λ e.
        fill_password-IsPassword batches (take_letters batch out) (take_letters-IsPart batch out h)
          good.1 (ground (arith, e, enough, take_letters-more batch out good.0)))
      (λ e. (ground (arith, e, h.0), h.1))

-- Six batches of random bytes, each with a byte that is not rejected, are enough for a password; it
-- has six letters of the alphabet.
pub generate_temp_password-ends :
    (batches : List (List ℕ))
    → All (λ b. is_good b ≡ true) batches
    → 6 ≤ length batches
    → IsPassword (generate_temp_password batches)
unfolding generate_temp_password IsPart
generate_temp_password-ends batches good enough =
    fill_password-IsPassword batches [] (omega arith, tt) good (omega (arith, enough))

-- An id was made, with nine digits and no leading zero.
unfoldable pub IsId : Option DeviceId → Type 0
IsId none = ⊥
IsId (some id) = IsCanonical id

drawn-IsCanonical : (n : ℕ) → IsCanonical (from_number (low + n % span))
drawn-IsCanonical n = from_number-IsCanonical (low + n % span) (omega arith) (omega arith)

-- As soon as a number is drawn that is not rejected, there is an id, and it is canonical.
pub generate_device_id-ends :
    (draws : List ℕ) → any (λ n. ltb n id_limit) draws ≡ true → IsId (generate_device_id draws)
unfolding generate_device_id IsId
generate_device_id-ends [] h = ground (arith, h)
generate_device_id-ends (n ∷ draws) h =
    if_both IsId (ltb n id_limit) (λ e. drawn-IsCanonical n)
      (λ e. generate_device_id-ends draws (ground (arith, e, h)))
