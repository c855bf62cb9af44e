-- ===== src/Map/Laws.antt =====
-- The laws of finite maps.
use remote_x.Prelude.{
  ◌+◌, ◌≤◌, ◌≡◌, refl, Bool, false, List, [], ◌∷◌, Option, none, some, arith, if◌then◌else◌,
}
use remote_x.Prelude.Eq.{Eq, ◌==◌}
use remote_x.Map.{Map, empty, len, lookup, insert, remove, retain, contains, without, keys_where}

-- What `retain` leaves of a lookup.
abbrev pub kept {ℓ κ} : {K : Type ℓ} {V : Type κ} → (K → V → Bool) → K → Option V → Option V
kept p k none = none
kept p k (some v) = if p k v then some v else none

module _ {ℓ κ} {K : Type ℓ} {V : Type κ} ⦃e : Eq K⦄ where
  pub lookup-empty : (k : K) → lookup k (empty {V = V}) ≡ none
  unfolding lookup empty
  lookup-empty k = refl

  pub lookup-remove :
      (k j : K) (m : Map K V) → lookup j (remove k m) ≡ (if k == j then none else lookup j m)
  unfolding lookup remove
  lookup-remove k j [] = ground arith
  lookup-remove k j ((i, v) ∷ m) =
      ground (arith, lookup-remove k j m, e.beq_iff i k, e.beq_iff i j, e.beq_iff k j)

  pub lookup-insert :
      (k j : K) (v : V) (m : Map K V)
      → lookup j (insert k v m) ≡ (if k == j then some v else lookup j m)
  unfolding lookup insert
  lookup-insert k j v m = ground (arith, lookup-remove k j m)

  pub lookup-retain :
      (p : K → V → Bool) (j : K) (m : Map K V) → lookup j (retain p m) ≡ kept p j (lookup j m)
  unfolding lookup retain
  lookup-retain p j [] = refl
  lookup-retain p j ((i, v) ∷ m) =
      ground (arith, lookup-retain p j m, lookup-remove i j (retain p m), e.beq_iff i j)

  pub len-remove-le : (k : K) (m : Map K V) → len (remove k m) ≤ len m
  unfolding len remove
  len-remove-le k [] = omega arith
  len-remove-le k ((i, v) ∷ m) = ground (arith, len-remove-le k m)

  pub len-insert-le : (k : K) (v : V) (m : Map K V) → len (insert k v m) ≤ len m + 1
  unfolding len insert
  len-insert-le k v m = omega (arith, len-remove-le k m)

module _ {ℓ κ} {K : Type ℓ} {V : Type κ} ⦃e : Eq K⦄ where
  len-remove-lt : (k : K) (v : V) (m : Map K V) → lookup k m ≡ some v → len (remove k m) + 1 ≤ len m
  unfolding len lookup remove
  len-remove-lt k v [] h = cc
  len-remove-lt k v ((i, w) ∷ m) h = ground (arith, len-remove-lt k v m, len-remove-le k m)

  -- Overwriting a key makes no room.
  pub len-insert-old :
      (k : K) (v w : V) (m : Map K V) → lookup k m ≡ some v → len (insert k w m) ≤ len m
  unfolding len insert
  len-insert-old k v w m h = omega (arith, len-remove-lt k v m h)

-- Whether an option holds a value that passes the test.
abbrev pub passes {ℓ κ} : {K : Type ℓ} {V : Type κ} → (K → V → Bool) → K → Option V → Bool
passes p k none = false
passes p k (some v) = p k v

module _ {ℓ} {K : Type ℓ} ⦃e : Eq K⦄ where
  pub contains-without :
      (k j : K) (ks : List K)
      → contains j (without k ks) ≡ (if k == j then false else contains j ks)
  unfolding contains without
  contains-without k j [] = ground arith
  contains-without k j (i ∷ ks) =
      ground (arith, contains-without k j ks, e.beq_iff i k, e.beq_iff i j, e.beq_iff k j)

module _ {ℓ κ} {K : Type ℓ} {V : Type κ} ⦃e : Eq K⦄ where
  -- A key is yielded exactly when its entry passes.
  pub contains-keys_where :
      (p : K → V → Bool) (j : K) (m : Map K V)
      → contains j (keys_where p m) ≡ passes p j (lookup j m)
  unfolding contains keys_where lookup
  contains-keys_where p j [] = refl
  contains-keys_where p j ((i, v) ∷ m) =
      ground
        (arith, contains-keys_where p j m, contains-without i j (keys_where p m), e.beq_iff i j)

pub ruleset map_laws = (lookup-empty, lookup-remove, lookup-insert, lookup-retain)
