-- ===== src/Map/Entries.antt =====
-- Predicates on every entry of a map, and what the operations keep of them.
use remote_x.Prelude.{
  ◌≡◌, sym, subst, [], ◌∷◌, none, some, arith, if_both, ◌∙◌, Bool-cases, inl, inr,
}
use remote_x.Prelude.Eq.{Eq, ◌==◌}
use remote_x.Map.{Map, lookup, insert, remove}

module _ {ℓ κ ι} {K : Type ℓ} {V : Type κ} where
  abbrev pub Every : (K → V → Type ι) → Map K V → Type ι
  Every P [] = Unit
  Every P ((k, v) ∷ m) = P k v × Every P m

module _ {ℓ κ ι} {K : Type ℓ} {V : Type κ} ⦃e : Eq K⦄ (P : K → V → Type ι) where
  pub lookup-Every : (k : K) (v : V) (m : Map K V) → Every P m → lookup k m ≡ some v → P k v
  unfolding lookup
  lookup-Every k v [] h q = cc
  lookup-Every k v ((j, u) ∷ m) h q = elim (Bool-cases (j == k)) [
    | inl b ↦
        let u≡v : some u ≡ some v = sym (ground (arith, b)) ∙ q in
        subst (λ i. P i v) ((e.beq_iff j k).0 b)
          (subst (λ o. elim o [ none ↦ P j v | some x ↦ P j x ]) u≡v h.0)
    | inr b ↦ lookup-Every k v m h.1 (ground (arith, b, q))
  ]

  pub remove-Every : (k : K) (m : Map K V) → Every P m → Every P (remove k m)
  unfolding remove
  remove-Every k [] h = h
  remove-Every k ((j, v) ∷ m) h =
      if_both (Every P) (j == k) (λ b. remove-Every k m h.1) (λ b. (h.0, remove-Every k m h.1))

  pub insert-Every : (k : K) (v : V) (m : Map K V) → P k v → Every P m → Every P (insert k v m)
  unfolding insert
  insert-Every k v m p h = (p, remove-Every k m h)
