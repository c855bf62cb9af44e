-- ===== src/Session/InputThread/Coalesce.antt =====
-- What collapsing waiting moves keeps.
use mathlib.Core.List.{append_assoc, append-nil}
use remote_x.Prelude.{
  ℕ, ◌+◌, ◌≡◌, refl, sym, ap, ◌∙◌, Bool, true, false, not, List, [], ◌∷◌, ◌++◌, Option, none, some,
  arith, if◌then◌else◌, length, retain, retain-append,
}
use remote_x.Session.InputThread.{InboundInput, is_move, collapse, coalesce_from, coalesce_moves}

unfoldable pub is_other : InboundInput → Bool
is_other it = not (is_move it.ev)

unfoldable pub last_of {ℓ} : {A : Type ℓ} → List A → Option A
last_of [] = none
last_of (x ∷ []) = some x
last_of (x ∷ y ∷ xs) = last_of (y ∷ xs)

-- No two moves stand next to each other.
unfoldable pub spaced : List InboundInput → Bool
spaced [] = true
spaced (p ∷ []) = true
spaced (p ∷ q ∷ out) =
    let rest = spaced (q ∷ out) in
    if is_move p.ev then (if is_move q.ev then false else rest) else rest

collapse-others :
    (out : List InboundInput) (it : InboundInput)
    → retain is_other (collapse out it).0 ≡ retain is_other (out ++ (it ∷ []))
unfolding collapse is_other
collapse-others [] it = refl
collapse-others (p ∷ []) it = ground arith
collapse-others (p ∷ q ∷ out) it = ground (arith, collapse-others (q ∷ out) it)

collapse-count :
    (out : List InboundInput) (it : InboundInput)
    → length (collapse out it).0 + (collapse out it).1 ≡ length out + 1
unfolding collapse
collapse-count [] it = refl
collapse-count (p ∷ []) it = ground arith
collapse-count (p ∷ q ∷ out) it = omega (arith, collapse-count (q ∷ out) it)

collapse-last :
    (out : List InboundInput) (it : InboundInput) → last_of (collapse out it).0 ≡ some it
unfolding collapse last_of
collapse-last [] it = refl
collapse-last (p ∷ []) it = ground arith
collapse-last (p ∷ q ∷ []) it = ground arith
collapse-last (p ∷ q ∷ r ∷ out) it = collapse-last (q ∷ r ∷ out) it

collapse-spaced :
    (out : List InboundInput) (it : InboundInput)
    → spaced out ≡ true
    → spaced (collapse out it).0 ≡ true
unfolding collapse spaced
collapse-spaced [] it h = refl
collapse-spaced (p ∷ []) it h = ground arith
collapse-spaced (p ∷ q ∷ []) it h = ground arith
collapse-spaced (p ∷ q ∷ r ∷ out) it h = ground (arith, collapse-spaced (q ∷ r ∷ out) it)

coalesce_from-others :
    (out : List InboundInput) (n : ℕ) (items : List InboundInput)
    → retain is_other (coalesce_from out n items).0 ≡ retain is_other out ++ retain is_other items
unfolding coalesce_from
coalesce_from-others out n [] = sym (append-nil (retain is_other out))
coalesce_from-others out n (it ∷ items) =
    coalesce_from-others (collapse out it).0 (n + (collapse out it).1) items
    ∙ ap (λ xs. xs ++ retain is_other items) (collapse-others out it)
    ∙ ap (λ xs. xs ++ retain is_other items) (retain-append is_other out (it ∷ []))
    ∙ append_assoc (retain is_other out) (retain is_other (it ∷ [])) (retain is_other items)
    ∙ ap (λ xs. retain is_other out ++ xs) (sym (retain-append is_other (it ∷ []) items))

coalesce_from-count :
    (out : List InboundInput) (n : ℕ) (items : List InboundInput)
    → length (coalesce_from out n items).0 + (coalesce_from out n items).1
      ≡ length out + n + length items
unfolding coalesce_from
coalesce_from-count out n [] = omega arith
coalesce_from-count out n (it ∷ items) = omega (
  arith,
  collapse-count out it,
  coalesce_from-count (collapse out it).0 (n + (collapse out it).1) items,
)

coalesce_from-last :
    (out : List InboundInput) (n : ℕ) (it : InboundInput) (items : List InboundInput)
    → last_of (coalesce_from out n (it ∷ items)).0 ≡ last_of (it ∷ items)
unfolding coalesce_from last_of
coalesce_from-last out n it [] = collapse-last out it
coalesce_from-last out n it (jt ∷ items) =
    coalesce_from-last (collapse out it).0 (n + (collapse out it).1) jt items

coalesce_from-spaced :
    (out : List InboundInput) (n : ℕ) (items : List InboundInput)
    → spaced out ≡ true
    → spaced (coalesce_from out n items).0 ≡ true
unfolding coalesce_from
coalesce_from-spaced out n [] h = h
coalesce_from-spaced out n (it ∷ items) h =
    coalesce_from-spaced (collapse out it).0 (n + (collapse out it).1) items
      (collapse-spaced out it h)

-- Collapsing a batch keeps every event that is not a move, in order; leaves no two moves next to
-- each other; ends with the batch's newest event; and reports as dropped exactly the events that
-- are gone.
pub coalesce_moves-keeps :
    (it : InboundInput) (items : List InboundInput)
    → (retain is_other (coalesce_moves (it ∷ items)).0 ≡ retain is_other (it ∷ items))
      × (spaced (coalesce_moves (it ∷ items)).0 ≡ true)
      × (last_of (coalesce_moves (it ∷ items)).0 ≡ last_of (it ∷ items))
      × (length (coalesce_moves (it ∷ items)).0 + (coalesce_moves (it ∷ items)).1
          ≡ length (it ∷ items))
unfolding coalesce_moves spaced
coalesce_moves-keeps it items = (
  coalesce_from-others [] 0 (it ∷ items),
  coalesce_from-spaced [] 0 (it ∷ items) refl,
  coalesce_from-last [] 0 it items,
  omega (arith, coalesce_from-count [] 0 (it ∷ items)),
)
