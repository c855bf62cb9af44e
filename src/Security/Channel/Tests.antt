-- ===== src/Security/Channel/Tests.antt =====
-- A transparent cipher that meets the assumptions, and the channel over it.
use remote_x.Prelude.{
  ℕ, ◌≡◌, refl, ap, ◌∙◌, sym, subst, zero, suc, nat_beq, List, [], ◌∷◌, Option, none, some, arith,
  if◌then◌else◌,
}
use remote_x.Prelude.Result.{err}
use remote_x.Common.Text.{text_eq}
use remote_x.Security.Channel.{Aead, auth, Sealer, Opener, seal, opening, nonce}
use remote_x.Security.Channel.Order.{opening-place, seal_all, open_all, open_all-seal_all}

-- Each byte of the nonce, marked, and then the plaintext behind a zero.
enc : List ℕ → List ℕ → List ℕ
enc [] p = 0 ∷ p
enc (a ∷ n) p = suc a ∷ enc n p

dec : List ℕ → List ℕ → Option (List ℕ)
dec n [] = none
dec [] (zero ∷ c) = some c
dec [] (suc b ∷ c) = none
dec (a ∷ n) (zero ∷ c) = none
dec (a ∷ n) (suc b ∷ c) = if nat_beq a b then dec n c else none

dec-enc : (n p : List ℕ) → dec n (enc n p) ≡ some p
unfolding dec enc
dec-enc [] p = refl
dec-enc (a ∷ n) p = ground (arith, dec-enc n p)

enc-dec : (n p c : List ℕ) → dec n c ≡ some p → enc n p ≡ c
unfolding dec enc
enc-dec [] p [] e = cc
enc-dec [] p (zero ∷ c) e = ground arith
enc-dec [] p (suc b ∷ c) e = cc
enc-dec (a ∷ n) p [] e = cc
enc-dec (a ∷ n) p (zero ∷ c) e = cc
enc-dec (a ∷ n) p (suc b ∷ c) e = ground (arith, enc-dec n p c)

enc-injective : (m n p q : List ℕ) → enc m p ≡ enc n q → m ≡ n
unfolding enc
enc-injective [] [] p q e = refl
enc-injective [] (b ∷ n) p q e = ground arith
enc-injective (a ∷ m) [] p q e = ground arith
enc-injective (a ∷ m) (b ∷ n) p q e = ground (arith, enc-injective m n p q)

unwrap : (x y : List ℕ) → ◌≡◌ {A = Option (List ℕ)} (some x) (some y) → x ≡ y
unwrap x y e = cc

abbrev transparent : Aead
transparent = record {
  encrypt = λ k n p. some (enc n p);
  decrypt = λ k n c. dec n c;
  opens = λ k n p c e. subst (λ x. dec n x ≡ some p) (unwrap (enc n p) c e) (dec-enc n p);
  authentic = λ k n p c e. ap some (enc-dec n p c e);
  bound = λ k m n p q c e f. enc-injective m n p q (unwrap (enc m p) (enc n q) (e ∙ sym f));
}

abbrev sealer : Sealer
sealer = record { key = 9 ∷ []; counter = 3 }

abbrev opener : Opener
opener = record { key = 9 ∷ []; counter = 3 }

opening-place_example : opening transparent opener (enc (nonce 2) (1 ∷ [])) ≡ (err auth, opener)
opening-place_example =
    opening-place transparent opener 2 (enc (nonce 2) (1 ∷ [])) (1 ∷ [], refl) (omega arith)
      (omega arith) (λ e. omega arith)

open_all-seal_all_example :
    open_all transparent opener (enc (nonce 3) (7 ∷ []) ∷ enc (nonce 4) (8 ∷ []) ∷ [])
    ≡ some ((7 ∷ []) ∷ (8 ∷ []) ∷ [])
unfolding seal seal_all
open_all-seal_all_example =
    open_all-seal_all transparent sealer opener ((7 ∷ []) ∷ (8 ∷ []) ∷ [])
      (enc (nonce 3) (7 ∷ []) ∷ enc (nonce 4) (8 ∷ []) ∷ []) refl refl refl
