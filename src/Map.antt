-- ===== src/Map.antt =====
-- `std::collections::HashMap` as far as the program uses it: a finite map with its entries in some
-- order. Clients use `lookup`, `insert`, `remove`, `retain`, `len` and the laws; the entries are
-- private to this module and the ones below it.
pub mod Laws
pub mod Entries
use remote_x.Prelude.{ℕ, suc, Bool, true, false, List, [], ◌∷◌, Option, none, some, if◌then◌else◌}
use remote_x.Prelude.Eq.{Eq, ◌==◌}

abbrev pub Map {ℓ κ} : Type ℓ → Type κ → Type (ℓ ⊔ κ)
Map K V = List (K × V)

module _ {ℓ κ} {K : Type ℓ} {V : Type κ} where
  unfoldable pub empty : Map K V
  empty = []

  -- HashMap::len
  unfoldable pub len : Map K V → ℕ
  len [] = 0
  len (e ∷ m) = suc (len m)

-- Lists of keys.
module _ {ℓ} {K : Type ℓ} ⦃e : Eq K⦄ where
  unfoldable pub contains : K → List K → Bool
  contains k [] = false
  contains k (j ∷ ks) = if j == k then true else contains k ks

  unfoldable pub without : K → List K → List K
  without k [] = []
  without k (j ∷ ks) = let rest = without k ks in if j == k then rest else j ∷ rest

module _ {ℓ κ} {K : Type ℓ} {V : Type κ} ⦃e : Eq K⦄ where
  -- HashMap::get
  unfoldable pub lookup : K → Map K V → Option V
  lookup k [] = none
  lookup k ((j, v) ∷ m) = if j == k then some v else lookup k m

  -- HashMap::remove
  unfoldable pub remove : K → Map K V → Map K V
  remove k [] = []
  remove k ((j, v) ∷ m) = let rest = remove k m in if j == k then rest else (j, v) ∷ rest

  -- HashMap::insert
  unfoldable pub insert : K → V → Map K V → Map K V
  unfolding remove
  insert k v m = (k, v) ∷ remove k m

  -- HashMap::retain. A key that is dropped is dropped with all that its entry would shadow.
  unfoldable pub retain : (K → V → Bool) → Map K V → Map K V
  unfolding remove
  retain p [] = []
  retain p ((k, v) ∷ m) = let rest = retain p m in if p k v then (k, v) ∷ rest else remove k rest

  -- The keys that `iter().filter(p)` yields. As in `retain`, an entry hides what it would shadow; a
  -- map that `insert` builds has nothing of the kind.
  unfoldable pub keys_where : (K → V → Bool) → Map K V → List K
  unfolding without
  keys_where p [] = []
  keys_where p ((k, v) ∷ m) =
      let rest = without k (keys_where p m) in if p k v then k ∷ rest else rest
