-- ===== src/Common/Ids/Canonical.antt =====
-- The canonical form of a device id, and what parses to it.
use remote_x.Prelude.{
  ℕ, zero, suc, ◌+◌, ◌-◌, lt→ltb, ◌/◌, ◌%◌, ◌*◌, ◌^◌, ◌≤◌, ◌<◌, ◌≡◌, refl, ◌∙◌, subst, true, false,
  [], ◌∷◌, ◌++◌, some, arith, length, take, drop, All,
}
use native.Mathlib.Nat.{zero-add, zero-mul}
use remote_x.Common.Text.{Text, byte_len}
use remote_x.Common.Ids.{
  is_separator, is_digit, normalize_digit, normalize_digits, starts_with_zero, strip, all_digits,
  checked, parse, from_number, display, id_len,
}

-- Nine ASCII digits, the first of them not a zero.
pub record IsCanonical (s : Text) : Type 0 where
  pub nine : length s ≡ id_len
  pub digits : All (λ c. is_digit c ≡ true) s
  pub leading : starts_with_zero s ≡ false

digits-all_digits : (s : Text) → All (λ c. is_digit c ≡ true) s → all_digits s ≡ true
unfolding all_digits
digits-all_digits [] h = refl
digits-all_digits (c ∷ s) h = ground (arith, digits-all_digits s h.1)

all_digits-digits : (s : Text) → all_digits s ≡ true → All (λ c. is_digit c ≡ true) s
unfolding all_digits
all_digits-digits [] h = tt
all_digits-digits (c ∷ s) h = (ground arith, all_digits-digits s (ground arith))

byte_len-digits : (s : Text) → All (λ c. is_digit c ≡ true) s → byte_len s ≡ length s
unfolding byte_len
byte_len-digits [] h = refl
byte_len-digits (c ∷ s) h = ground (arith, byte_len-digits s h.1)

strip-digits : (s : Text) → All (λ c. is_digit c ≡ true) s → strip s ≡ s
unfolding strip is_separator
strip-digits [] h = refl
strip-digits (c ∷ s) h = ground (arith, strip-digits s h.1)

strip-append : (s t : Text) → strip (s ++ t) ≡ strip s ++ strip t
unfolding strip
strip-append [] t = refl
strip-append (c ∷ s) t = ground (arith, strip-append s t)

normalize_digits-digits : (s : Text) → All (λ c. is_digit c ≡ true) s → normalize_digits s ≡ s
unfolding normalize_digits normalize_digit
normalize_digits-digits [] h = refl
normalize_digits-digits (c ∷ s) h = ground (arith, normalize_digits-digits s h.1)

checked-IsCanonical : (s : Text) → IsCanonical s → checked s ≡ some s
unfolding checked
checked-IsCanonical s h =
    ground (arith, h.nine, h.leading, byte_len-digits s h.digits, digits-all_digits s h.digits)

-- What `parse` returns is canonical.
pub parse-IsCanonical : (input s : Text) → parse input ≡ some s → IsCanonical s
unfolding parse checked
parse-IsCanonical input s h =
    let digits : Text = normalize_digits (strip input) in
    let same : digits ≡ s = ground arith in
    let ds : All (λ c. is_digit c ≡ true) digits = all_digits-digits digits (ground arith) in
    record {
      nine = ground (arith, byte_len-digits digits ds);
      digits = subst (All (λ c. is_digit c ≡ true)) same ds;
      leading = ground arith;
    }

strip_space : (s : Text) → strip (b' ' ∷ s) ≡ strip s
unfolding strip is_separator
strip_space s = refl

strip_groups :
    (x y z : Text)
    → All (λ c. is_digit c ≡ true) x
    → All (λ c. is_digit c ≡ true) y
    → All (λ c. is_digit c ≡ true) z
    → strip (x ++ (b' ' ∷ (y ++ (b' ' ∷ z)))) ≡ x ++ (y ++ z)
strip_groups x y z hx hy hz =
    simp (strip-append, strip_space, strip-digits x hx, strip-digits y hy, strip-digits z hz)

take-digits :
    (n : ℕ) (s : Text) → All (λ c. is_digit c ≡ true) s → All (λ c. is_digit c ≡ true) (take n s)
take-digits zero s h = tt
take-digits (suc n) [] h = tt
take-digits (suc n) (c ∷ s) h = (h.0, take-digits n s h.1)

drop-digits :
    (n : ℕ) (s : Text) → All (λ c. is_digit c ≡ true) s → All (λ c. is_digit c ≡ true) (drop n s)
drop-digits zero s h = h
drop-digits (suc n) [] h = tt
drop-digits (suc n) (c ∷ s) h = drop-digits n s h.1

groups : (s : Text) → length s ≡ 9 → take 3 s ++ (take 3 (drop 3 s) ++ take 3 (drop 6 s)) ≡ s
groups (a ∷ b ∷ c ∷ d ∷ e ∷ f ∷ g ∷ h ∷ i ∷ []) p = refl
groups _ p = absurd (omega arith)

strip-display : (s : Text) → IsCanonical s → strip (display s) ≡ s
unfolding display
strip-display s h =
    strip_groups (take 3 s) (take 3 (drop 3 s)) (take 3 (drop 6 s)) (take-digits 3 s h.digits)
      (take-digits 3 (drop 3 s) (drop-digits 3 s h.digits))
      (take-digits 3 (drop 6 s) (drop-digits 6 s h.digits))
    ∙ groups s h.nine

parse-strip : (input s : Text) → strip input ≡ s → IsCanonical s → parse input ≡ some s
unfolding parse
parse-strip input s e h = rw (e, normalize_digits-digits s h.digits) (checked-IsCanonical s h)

-- A canonical id parses to itself, and so does what is displayed of it.
pub parse-display : (s : Text) → IsCanonical s → (parse s ≡ some s) × (parse (display s) ≡ some s)
parse-display s h =
    (parse-strip s s (strip-digits s h.digits) h, parse-strip (display s) s (strip-display s h) h)

digit-is_digit : (x : ℕ) → is_digit (b'0' + x % 10) ≡ true
digit-is_digit x = ground arith

-- Every number of nine digits, such as the ids that are generated, gives a canonical id.
pub from_number-IsCanonical :
    (n : ℕ) → 100_000_000 ≤ n → n < 1_000_000_000 → IsCanonical (from_number n)
unfolding from_number
from_number-IsCanonical n lo hi =
    rw (lt→ltb n (10 ^ 9) hi, from_number)
      (record {
        nine = refl;
        digits = (
          digit-is_digit (n / 10 ^ 8),
          (
            digit-is_digit (n / 10 ^ 7),
            (
              digit-is_digit (n / 10 ^ 6),
              (
                digit-is_digit (n / 10 ^ 5),
                (
                  digit-is_digit (n / 10 ^ 4),
                  (
                    digit-is_digit (n / 10 ^ 3),
                    (
                      digit-is_digit (n / 10 ^ 2),
                      (digit-is_digit (n / 10 ^ 1), (digit-is_digit (n / 10 ^ 0), tt)),
                    ),
                  ),
                ),
              ),
            ),
          ),
        );
        leading = ground arith;
      })

value : Text → ℕ → ℕ
value [] acc = acc
value (c ∷ s) acc = value s (acc * 10 + (c - b'0'))

digit-sub : (x : ℕ) → (b'0' + x) - b'0' ≡ x
digit-sub x = omega arith

value-from_number : (n : ℕ) → n < 1_000_000_000 → value (from_number n) 0 ≡ n
unfolding from_number value
value-from_number n h =
    rw (lt→ltb n (10 ^ 9) h, from_number) (simp (digit-sub, zero-mul, zero-add) (omega arith))

-- Different numbers below 10^9 have different ids.
pub from_number-injective :
    (m n : ℕ) → m < 1_000_000_000 → n < 1_000_000_000 → from_number m ≡ from_number n → m ≡ n
from_number-injective m n hm hn e = cc (value-from_number m hm, value-from_number n hn)
