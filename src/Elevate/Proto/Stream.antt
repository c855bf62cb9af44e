-- ===== src/Elevate/Proto/Stream.antt =====
-- What is written to the pipe is read back, message by message.
use mathlib.Core.List.{append_assoc, append-nil}
use remote_x.Prelude.{
  ℕ, zero, suc, ◌/◌, ◌%◌, ◌^◌, ◌≡◌, ◌≤◌, ◌<◌, refl, ap, ◌∙◌, true, false, List, [], ◌∷◌, ◌++◌, some,
  arith, ltb, nat_beq, if◌then◌else◌, length, take, drop, length-append, Option-cases, inl, inr,
}
use remote_x.Prelude.Result.{Result, ok, err, Result-cases}
use remote_x.Elevate.Proto.{
  max_message, FrameError, Codec, to_le_bytes, from_le_bytes, read_exact, write_msg, parse_body,
  read_msg,
}

from_le_bytes-to_le_bytes : (n : ℕ) → n < 2 ^ 32 → from_le_bytes (to_le_bytes n) ≡ n
unfolding from_le_bytes to_le_bytes
from_le_bytes-to_le_bytes n h = omega arith

take-append : (xs ys : List ℕ) → take (length xs) (xs ++ ys) ≡ xs
take-append [] ys = refl
take-append (x ∷ xs) ys = ap (λ zs. x ∷ zs) (take-append xs ys)

drop-append : (xs ys : List ℕ) → drop (length xs) (xs ++ ys) ≡ ys
drop-append [] ys = refl
drop-append (x ∷ xs) ys = drop-append xs ys

read_exact-append : (xs ys : List ℕ) → read_exact (length xs) (xs ++ ys) ≡ ok (xs, ys)
unfolding read_exact
read_exact-append xs ys =
    let a : ltb (length (xs ++ ys)) (length xs) ≡ false = ground (arith, length-append xs ys) in
    rw (a, take-append xs ys, drop-append xs ys) refl

four : (n : ℕ) (ys : List ℕ) → read_exact 4 (to_le_bytes n ++ ys) ≡ ok (to_le_bytes n, ys)
unfolding to_le_bytes
four n ys =
    read_exact-append (n % 256 ∷ n / 256 % 256 ∷ n / 65536 % 256 ∷ n / 16777216 % 256 ∷ []) ys

module _ {T : Type 0} (codec : Codec T) where
  open codec use {to_stdvec, take_from_bytes}

  -- One frame is read to its message, whatever follows it in the pipe.
  read_msg-frame :
      (v : T) (body rest : List ℕ)
      → to_stdvec v ≡ some body
      → 0 < length body
      → length body ≤ max_message
      → read_msg codec (to_le_bytes (length body % 2 ^ 32) ++ (body ++ rest)) ≡ (ok v, rest)
  unfolding read_msg parse_body
  read_msg-frame v body rest e z l =
      let m : length body % 2 ^ 32 ≡ length body = omega arith in
      let h : from_le_bytes (to_le_bytes (length body % 2 ^ 32)) ≡ length body =
        ap (λ n. from_le_bytes (to_le_bytes n)) m
        ∙ from_le_bytes-to_le_bytes (length body) (omega arith) in
      let r = read_exact-append (to_le_bytes (length body % 2 ^ 32)) (body ++ rest) in
      let s = read_exact-append body rest in
      let q : read_exact 4 (to_le_bytes (length body % 2 ^ 32) ++ (body ++ rest))
          ≡ ok (to_le_bytes (length body % 2 ^ 32), body ++ rest) =
        four (length body % 2 ^ 32) (body ++ rest) in
      let t : (if nat_beq (length body) 0 then true else ltb max_message (length body)) ≡ false =
        ground arith in
      let u : parse_body codec body ≡ ok v = rw (parse_body, codec.back v body e) refl in
      rw (read_msg, q, h, t, s, u) refl

  -- What a write puts behind the bytes that are in the pipe.
  write_msg-frame :
      (v : T) (pipe pipe' : List ℕ)
      → write_msg codec v pipe ≡ ok pipe'
      → (body : List ℕ) × (to_stdvec v ≡ some body)
        × (length body ≤ max_message)
        × (pipe' ≡ pipe ++ (to_le_bytes (length body % 2 ^ 32) ++ body))
  unfolding write_msg
  write_msg-frame v pipe pipe' w = elim (Option-cases (to_stdvec v)) [
    | inl q ↦ absurd (ground (arith, q, w))
    | inr (body, q) ↦ (body, q, ground (arith, q, w), ground (arith, q, w))
  ]

  -- Several messages, one write or one read after the other.
  unfoldable pub write_all : List T → List ℕ → Result (List ℕ) FrameError
  write_all [] pipe = ok pipe
  write_all (v ∷ vs) pipe = elim (write_msg codec v pipe) [
    | err e ↦ err e
    | ok pipe' ↦ write_all vs pipe'
  ]

  unfoldable pub read_all : ℕ → List ℕ → Result (List T) FrameError × List ℕ
  read_all zero pipe = (ok [], pipe)
  read_all (suc n) pipe =
      let (r, pipe') = read_msg codec pipe in
      elim r [
        | err e ↦ (err e, pipe')
        | ok v ↦
            let (rs, left) = read_all n pipe' in
            elim rs [ err e ↦ (err e, left) | ok vs ↦ (ok (v ∷ vs), left) ]
      ]

  read_all-step :
      (n : ℕ) (v : T) (vs : List T) (pipe pipe' left : List ℕ)
      → read_msg codec pipe ≡ (ok v, pipe')
      → read_all n pipe' ≡ (ok vs, left)
      → read_all (suc n) pipe ≡ (ok (v ∷ vs), left)
  unfolding read_all
  read_all-step n v vs pipe pipe' left m r =
      let a : read_all n (read_msg codec pipe).1 ≡ (ok vs, left) = ap (λ x. read_all n x.1) m ∙ r in
      ground (arith, ap (λ x. x.0) m, ap (λ x. x.0) a, ap (λ x. x.1) a)

  write_all-frames :
      (vs : List T) (pipe pipe' rest : List ℕ)
      → write_all vs pipe ≡ ok pipe'
      → (frames : List ℕ) × (pipe' ≡ pipe ++ frames)
        × (read_all (length vs) (frames ++ rest) ≡ (ok vs, rest))
  unfolding write_all read_all
  write_all-frames [] pipe pipe' rest w = ([], ground (arith, w, append-nil pipe), refl)
  write_all-frames (v ∷ vs) pipe pipe' rest w = elim (Result-cases (write_msg codec v pipe)) [
    | inr (e, q) ↦ absurd (ground (arith, q, w))
    | inl (next, q) ↦
        let (body, b, l, p) = write_msg-frame v pipe next q in
        let (frames, f, r) = write_all-frames vs next pipe' rest (ground (arith, q, w)) in
        let head = to_le_bytes (length body % 2 ^ 32) in
        let m =
          read_msg-frame v body (frames ++ rest) b (ground (arith, codec.some_bytes v body b)) l in
        let a : (head ++ body) ++ frames ++ rest ≡ head ++ (body ++ (frames ++ rest)) =
          append_assoc (head ++ body) frames rest ∙ append_assoc head body (frames ++ rest) in
        (
          (head ++ body) ++ frames,
          f ∙ ap (λ xs. xs ++ frames) p ∙ append_assoc pipe (head ++ body) frames,
          ap (read_all (suc (length vs))) a
              ∙ read_all-step (length vs) v vs _ (frames ++ rest) rest m r,
        )
  ]

  -- Messages that were written one after the other to an empty pipe are read back, one after the
  -- other and in that order, and whatever came behind them is left in the pipe.
  pub read_all-write_all :
      (vs : List T) (pipe rest : List ℕ)
      → write_all vs [] ≡ ok pipe
      → read_all (length vs) (pipe ++ rest) ≡ (ok vs, rest)
  read_all-write_all vs pipe rest w =
      let (frames, f, r) = write_all-frames vs [] pipe rest w in
      ap (λ xs. read_all (length vs) (xs ++ rest)) f ∙ r
