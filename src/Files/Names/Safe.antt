-- ===== src/Files/Names/Safe.antt =====
-- An accepted path is the peer's, and none of its components leads out of the directory.
use remote_x.Prelude.{
  ℕ, ◌≡◌, ◌≢◌, ◌≤◌, refl, ap, sym, subst, ◌∙◌, Bool, true, false, List, [], ◌∷◌, ◌++◌, arith, any,
  nat_beq, All, Bool-cases, inl, inr,
}
use remote_x.Prelude.Eq.{nat_eq}
use remote_x.Prelude.Result.{ok}
use remote_x.Map.{contains}
use remote_x.Common.Text.{Text, codes, byte_len, text_beq_iff, text_eq}
use remote_x.Files.Names.{
  slash, is_control, is_forbidden, valid_component, split, all_valid, sanitize_relative,
}

-- The parts, with a slash between each and the next.
unfoldable pub join : Text → List Text → Text
join part [] = part
join part (next ∷ parts) = part ++ (slash ∷ join next parts)

-- A component that is a plain name: not empty, neither the directory nor its parent, of bounded
-- length, and without a separator, a drive or stream colon and a NUL.
abbrev pub IsPlain : Text → Type 0
IsPlain c =
    (c ≢ [])
    × (c ≢ codes ".")
    × (c ≢ codes "..")
    × (byte_len c ≤ 200)
    × (contains slash c ≡ false)
    × (contains b'\\' c ≡ false)
    × (contains b':' c ≡ false)
    × (contains 0 c ≡ false)

any-head : (d : ℕ) (c : Text) → any is_forbidden (d ∷ c) ≡ false → is_forbidden d ≡ false
any-head d c h = ground arith

any-tail : (d : ℕ) (c : Text) → any is_forbidden (d ∷ c) ≡ false → any is_forbidden c ≡ false
any-tail d c h = ground arith

forbidden-ne : (d x : ℕ) → is_forbidden x ≡ true → is_forbidden d ≡ false → d ≢ x
forbidden-ne d x f g e = absurd (ground (arith, f, g, ap is_forbidden e))

contains-any :
    (x : ℕ) (c : Text) → is_forbidden x ≡ true → any is_forbidden c ≡ false → contains x c ≡ false
unfolding contains
contains-any x [] f h = refl
contains-any x (d ∷ c) f h =
    let g : nat_beq d x ≡ false = elim (Bool-cases (nat_beq d x)) [
      | inr q ↦ q
      | inl q ↦ absurd (forbidden-ne d x f (any-head d c h) (ground arith))
    ] in
    ground (arith, g, contains-any x c f (any-tail d c h))

valid_component-IsPlain : (c : Text) → valid_component c ≡ true → IsPlain c
unfolding valid_component contains is_forbidden is_control
valid_component-IsPlain c h =
    let f : any is_forbidden c ≡ false = ground (arith, h) in
    (
      λ e. ground (arith, h, text_beq_iff c []),
      λ e. ground (arith, h, text_beq_iff c (codes ".")),
      λ e. ground (arith, h, text_beq_iff c (codes "..")),
      ground (arith, h),
      contains-any slash c refl f,
      contains-any b'\\' c refl f,
      contains-any b':' c refl f,
      contains-any 0 c refl f,
    )

join-cons : (c : ℕ) (part : Text) (parts : List Text) → join (c ∷ part) parts ≡ c ∷ join part parts
unfolding join
join-cons c part [] = refl
join-cons c part (next ∷ parts) = refl

join-split : (s : Text) → join (split s).0 (split s).1 ≡ s
unfolding join split
join-split [] = refl
join-split (c ∷ s) = elim (Bool-cases (nat_beq c slash)) [
  | inl q ↦ let e : slash ≡ c = ground arith in rw (q, join-split s) (ap (λ x. x ∷ s) e)
  | inr q ↦ rw q (join-cons c (split s).0 (split s).1 ∙ ap (λ t. c ∷ t) (join-split s))
]

all_valid-IsPlain : (parts : List Text) → all_valid parts ≡ true → All IsPlain parts
unfolding all_valid
all_valid-IsPlain [] h = tt
all_valid-IsPlain (p ∷ parts) h =
    (valid_component-IsPlain p (ground (arith, h)), all_valid-IsPlain parts (ground (arith, h)))

-- If a peer's name is accepted, the accepted parts, joined by slashes, are that very name; there
-- is at least one; and each is a plain component, which has at most 200 bytes, is neither empty
-- nor `.` nor `..`, and holds no slash, backslash, colon or NUL.
pub sanitize_relative-IsPlain :
    (is_normal : Text → Bool) (name : Text) (parts : List Text)
    → sanitize_relative is_normal name ≡ ok parts
    → (part : Text) × (rest : List Text) × (parts ≡ part ∷ rest)
      × (join part rest ≡ name)
      × All IsPlain parts
unfolding sanitize_relative
sanitize_relative-IsPlain is_normal name parts e =
    let a : all_valid ((split name).0 ∷ (split name).1) ≡ true = ground (arith, e) in
    let b : parts ≡ (split name).0 ∷ (split name).1 = ground (arith, e) in
    (
      (split name).0,
      (split name).1,
      b,
      join-split name,
      subst (λ ps. All IsPlain ps) (sym b) (all_valid-IsPlain ((split name).0 ∷ (split name).1) a),
    )
