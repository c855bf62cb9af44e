-- ===== src/Security/Channel/Order.antt =====
-- Frames open in the order in which they were sealed, and in no other.
use remote_x.Prelude.{
  ℕ, ◌+◌, ◌*◌, ◌^◌, ◌<◌, ◌≡◌, ◌≢◌, subst, List, [], ◌∷◌, Option, none, some, inl, inr, arith,
  Option-cases,
}
use remote_x.Prelude.Result.{ok, err, Result-cases}
use remote_x.Security.Channel.{Aead, auth, Sealer, Opener, nonce, seal, opening}

value : List ℕ → ℕ → ℕ
value [] acc = acc
value (b ∷ bs) acc = value bs (acc * 256 + b)

value-nonce : (c : ℕ) → c < 2 ^ 64 → value (nonce c) 0 ≡ c
unfolding value nonce
value-nonce c h = omega arith

-- Counters below 2^64 have different nonces.
pub nonce-injective : (m n : ℕ) → m < 2 ^ 64 → n < 2 ^ 64 → nonce m ≡ nonce n → m ≡ n
nonce-injective m n hm hn e = cc (value-nonce m hm, value-nonce n hn)

module _ (aead : Aead) where
  open aead use {encrypt, decrypt, opens, authentic, bound}

  -- `c` was sealed as the frame with number `i` under `key`.
  abbrev pub IsFrame : List ℕ → ℕ → List ℕ → Type 0
  IsFrame key i c = (p : List ℕ) × (encrypt key (nonce i) p ≡ some c)

  -- A frame opens only at its own place in the sequence: one that is replayed, comes early, or
  -- follows a frame that was dropped is an authentication failure and leaves the opener as it was.
  pub opening-place :
      (o : Opener) (i : ℕ) (c : List ℕ)
      → IsFrame o.key i c
      → i < 2 ^ 64
      → o.counter < 2 ^ 64
      → i ≢ o.counter
      → opening aead o c ≡ (err auth, o)
  unfolding opening
  opening-place o i c (p, sealed) hi ho ne =
      elim (Option-cases (decrypt o.key (nonce o.counter) c)) [
        | inl e ↦ ground (arith, e)
        | inr (q, e) ↦ absurd (
            ne (
              nonce-injective i o.counter hi ho (
                bound o.key (nonce i) (nonce o.counter) p q c sealed
                  (authentic o.key (nonce o.counter) q c e))))
      ]

  -- What `seal` returns is the frame of the sealer's number, and the next one gets the next number.
  pub seal-IsFrame :
      (s : Sealer) (p c : List ℕ)
      → (seal aead s p).0 ≡ ok c
      → IsFrame s.key s.counter c × ((seal aead s p).1.counter ≡ s.counter + 1)
  unfolding seal
  seal-IsFrame s p c e = elim (Option-cases (encrypt s.key (nonce s.counter) p)) [
    | inl q ↦ absurd (ground (arith, q, e))
    | inr (ct, q) ↦ ((p, ground (arith, q, e)), ground (arith, q, e))
  ]

  -- A run of the sealer, and of the opener: what comes out before the first error.
  unfoldable pub seal_all : Sealer → List (List ℕ) → Option (List (List ℕ))
  seal_all s [] = some []
  seal_all s (p ∷ ps) =
      let (r, s') = seal aead s p in
      elim r [
        | err e ↦ none
        | ok c ↦ elim (seal_all s' ps) [ none ↦ none | some cs ↦ some (c ∷ cs) ]
      ]

  unfoldable pub open_all : Opener → List (List ℕ) → Option (List (List ℕ))
  open_all o [] = some []
  open_all o (c ∷ cs) =
      let (r, o') = opening aead o c in
      elim r [
        | err e ↦ none
        | ok p ↦ elim (open_all o' cs) [ none ↦ none | some ps ↦ some (p ∷ ps) ]
      ]

  open-seal :
      (s : Sealer) (o : Opener) (p c : List ℕ)
      → o.key ≡ s.key
      → o.counter ≡ s.counter
      → (seal aead s p).0 ≡ ok c
      → ((opening aead o c).0 ≡ ok p)
        × ((opening aead o c).1.key ≡ (seal aead s p).1.key)
        × ((opening aead o c).1.counter ≡ (seal aead s p).1.counter)
  unfolding seal opening
  open-seal s o p c k n e = ground (arith, opens s.key (nonce s.counter) p c)

  -- Whatever is sealed in order, by a sealer and for an opener at the same number of the same key,
  -- opens in that order to the same plaintexts.
  pub open_all-seal_all :
      (s : Sealer) (o : Opener) (ps cs : List (List ℕ))
      → o.key ≡ s.key
      → o.counter ≡ s.counter
      → seal_all s ps ≡ some cs
      → open_all o cs ≡ some ps
  unfolding seal_all open_all
  open_all-seal_all s o [] cs k n e = ground arith
  open_all-seal_all s o (p ∷ ps) cs k n e = elim (Result-cases (seal aead s p).0) [
    | inr (f, q) ↦ absurd (ground (arith, q, e))
    | inl (c, q) ↦ elim (Option-cases (seal_all (seal aead s p).1 ps)) [
      | inl r ↦ absurd (ground (arith, q, r, e))
      | inr (cs', r) ↦
          let b = open-seal s o p c k n q in
          let rest = open_all-seal_all (seal aead s p).1 (opening aead o c).1 ps cs' b.1 b.2 r in
          subst (λ x. open_all o x ≡ some (p ∷ ps)) {x = c ∷ cs'} (ground (arith, q, r, e))
            (let first : open_all o (c ∷ cs') ≡ some (p ∷ ps) = ground (arith, b.0, rest) in first)
    ]
  ]
