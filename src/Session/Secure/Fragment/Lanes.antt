-- ===== src/Session/Secure/Fragment/Lanes.antt =====
-- The lanes do not disturb each other: what the reader does for one lane depends on its units only.
use remote_x.Prelude.{
  ℕ, ◌/◌, ◌%◌, ◌≡◌, ◌≢◌, ap, ◌∙◌, Bool, true, false, List, [], ◌∷◌, Option, none, some, inl, inr,
  arith, nat_beq, retain, Bool-cases,
}
use remote_x.Prelude.Result.{ok, Result-cases}
use remote_x.Session.Secure.Fragment.{
  lane_receive, Partial, update, deliver, receive, receive_all, add_message,
}

-- The units and the messages of one lane.
unfoldable pub of_lane : ℕ → List ℕ → Bool
of_lane k [] = false
of_lane k (hdr ∷ body) = nat_beq (hdr / 4) k

unfoldable pub on_lane : ℕ → ℕ × List ℕ → Bool
on_lane k (lane, bytes) = nat_beq lane k

-- What a unit of another lane, and one of the lane, mean for the lane's buffer.
deliver-other :
    (p p' : Partial) (k lane flag : ℕ) (body : List ℕ) (m : Option (ℕ × List ℕ))
    → lane ≢ k
    → deliver p lane flag body ≡ ok (m, p')
    → (p' k ≡ p k)
      × ((ms : List (ℕ × List ℕ)) → retain (on_lane k) (add_message m ms) ≡ retain (on_lane k) ms)
unfolding deliver update on_lane
deliver-other p p' k lane flag body m n e = elim (Result-cases (lane_receive (p lane) flag body)) [
  | inr (why, q) ↦ absurd (ground (arith, q, e))
  | inl ((none, b), q) ↦ (ground (arith, q, e), λ ms. ground (arith, q, e))
  | inl ((some bytes, b), q) ↦ (ground (arith, q, e), λ ms. ground (arith, q, e))
]

deliver-own :
    (p p' q : Partial) (lane k flag : ℕ) (body : List ℕ) (m : Option (ℕ × List ℕ))
    → lane ≡ k
    → p k ≡ q k
    → deliver p lane flag body ≡ ok (m, p')
    → (q' : Partial) × (deliver q lane flag body ≡ ok (m, q'))
      × (p' k ≡ q' k)
      × ((ms : List (ℕ × List ℕ))
          → retain (on_lane k) (add_message m ms) ≡ add_message m (retain (on_lane k) ms))
unfolding deliver update on_lane
deliver-own p p' q lane k flag body m d n e =
    elim (Result-cases (lane_receive (p lane) flag body)) [
      | inr (why, r) ↦ absurd (ground (arith, r, e))
      | inl ((none, b), r) ↦ (
        update q lane b,
        ground (arith, r, d, n, e, ap p d, ap q d),
        ground (arith, r, e, d),
        λ ms. ground (arith, r, e, d),
      )
      | inl ((some bytes, b), r) ↦ (
        update q lane b,
        ground (arith, r, d, n, e, ap p d, ap q d),
        ground (arith, r, e, d),
        λ ms. ground (arith, r, e, d),
      )
    ]

receive_all-step :
    (q q1 q' : Partial) (u : List ℕ) (m : Option (ℕ × List ℕ)) (us : List (List ℕ))
    (ms : List (ℕ × List ℕ))
    → receive q u ≡ ok (m, q1)
    → receive_all q1 us ≡ ok (ms, q')
    → receive_all q (u ∷ us) ≡ ok (add_message m ms, q')
unfolding receive_all
receive_all-step q q1 q' u m us ms e f = ground (arith, e, f)

nat_beq→eq : (a b : ℕ) → nat_beq a b ≡ true → a ≡ b
nat_beq→eq a b h = ground arith

-- If a sequence of units of any lanes is received without an error, the units of one lane alone,
-- from a reader that agrees on that lane's buffer, complete that lane's messages, in the same
-- order, and leave the same in its buffer.
pub receive_all-lane :
    (k : ℕ) (p q : Partial) (us : List (List ℕ)) (ms : List (ℕ × List ℕ)) (p' : Partial)
    → p k ≡ q k
    → receive_all p us ≡ ok (ms, p')
    → (q' : Partial) × (receive_all q (retain (of_lane k) us) ≡ ok (retain (on_lane k) ms, q'))
      × (q' k ≡ p' k)
unfolding receive_all receive of_lane
receive_all-lane k p q [] ms p' n e = (q, ground (arith, e), ground (arith, e, n))
receive_all-lane k p q ([] ∷ us) ms p' n e = absurd (ground (arith, e))
receive_all-lane k p q ((hdr ∷ body) ∷ us) ms p' n e =
    elim (Result-cases (deliver p (hdr / 4) (hdr % 4) body)) [
      | inr (why, r) ↦ absurd (ground (arith, r, e))
      | inl ((m, p1), r) ↦ elim (Result-cases (receive_all p1 us)) [
        | inr (why, s) ↦ absurd (ground (arith, r, s, e))
        | inl ((ms1, p2), s) ↦
            let g : ms ≡ add_message m ms1 = ground (arith, r, s, e) in
            let h : p' ≡ p2 = ground (arith, r, s, e) in
            elim (Bool-cases (nat_beq (hdr / 4) k)) [
              | inr c ↦
                  let (b, f) = deliver-other p p1 k (hdr / 4) (hdr % 4) body m (ground arith) r in
                  let (q', t, u) = receive_all-lane k p1 q us ms1 p2 (b ∙ n) s in
                  (q', (rw (c, g, f ms1) t), (rw h u))
              | inl c ↦
                  let (q1, v, b, f) =
                    deliver-own p p1 q (hdr / 4) k (hdr % 4) body m (nat_beq→eq (hdr / 4) k c) n
                      r in
                  let (q', t, u) = receive_all-lane k p1 q1 us ms1 p2 b s in
                  let w : receive_all q ((hdr ∷ body) ∷ retain (of_lane k) us)
                      ≡ ok (add_message m (retain (on_lane k) ms1), q') =
                    receive_all-step q q1 q' (hdr ∷ body) m (retain (of_lane k) us)
                      (retain (on_lane k) ms1) v t in
                  (q', (rw (c, g, f ms1) w), (rw h u))
            ]
      ]
    ]
