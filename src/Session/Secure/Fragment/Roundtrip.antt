-- ===== src/Session/Secure/Fragment/Roundtrip.antt =====
-- Cutting a message up and putting it together again gives the message.
use remote_x.Prelude.{
  ℕ, zero, suc, ◌+◌, ◌-◌, ◌*◌, ◌/◌, ◌%◌, ◌≤◌, ◌<◌, ◌≡◌, ◌≢◌, refl, sym, ap, ◌∙◌, subst, false, List,
  [], ◌∷◌, none, some, inl, inr, arith, leb, length, take, drop, length-take, length-drop,
  take-append-drop, take-all, take-add, Bool-cases,
}
use remote_x.Prelude.Result.{ok}
use remote_x.Session.Secure.Fragment.{
  fragment, max_frame, whole, first, mid, last, plan, next_unit, units, lane_receive, Partial,
  update, receive, receive_all, deliver,
}

-- The reader takes the lane and the flag of a unit back from its header byte.
receive_unit :
    (p : Partial) (lane flag : ℕ) (body : List ℕ)
    → flag < 4
    → receive p ((lane * 4 + flag) ∷ body) ≡ deliver p lane flag body
unfolding receive
receive_unit p lane flag body f =
    let q : (lane * 4 + flag) / 4 ≡ lane = omega arith in
    let r : (lane * 4 + flag) % 4 ≡ flag = omega arith in rw (q, r)

-- A lane's buffer after a unit that completes its message, and after one that does not.
lane_receive-last :
    (bytes : List ℕ) (off : ℕ)
    → 0 < off
    → off < length bytes
    → length bytes ≤ max_frame
    → lane_receive (take off bytes) last (take (length bytes - off) (drop off bytes))
      ≡ ok (some bytes, [])
unfolding lane_receive
lane_receive-last bytes off z l m =
    let e = take-all (length bytes - off) (drop off bytes) (omega (arith, length-drop off bytes)) in
    subst (λ b. lane_receive (take off bytes) last b ≡ ok (some bytes, [])) (sym e)
      (ground (arith, take-append-drop off bytes, length-take off bytes, length-drop off bytes))

lane_receive-mid :
    (bytes : List ℕ) (off n : ℕ)
    → 0 < off
    → off + n < length bytes
    → length bytes ≤ max_frame
    → lane_receive (take off bytes) mid (take n (drop off bytes)) ≡ ok (none, take (off + n) bytes)
unfolding lane_receive
lane_receive-mid bytes off n z l m =
    let a = take-add off n bytes in
    let b = length-take off bytes in
    let c : length (take n (drop off bytes)) ≤ n = omega (arith, length-take n (drop off bytes)) in
    let d : length (take off bytes) + length (take n (drop off bytes)) ≤ max_frame =
      omega (arith, b, c) in
    ground (arith, a, b, c)

lane_receive-first :
    (bytes partial : List ℕ) (n : ℕ)
    → n ≤ max_frame
    → lane_receive partial first (take n bytes) ≡ ok (none, take n bytes)
unfolding lane_receive
lane_receive-first bytes partial n l =
    let d : length (take n bytes) ≤ max_frame = omega (arith, length-take n bytes) in
    ground (arith, d)

-- The units of a message that is whole, and of one that starts, goes on and ends.
units-whole :
    (fuel lane : ℕ) (bytes : List ℕ)
    → length bytes ≤ fragment
    → units (suc fuel) (record { lane = lane; bytes = bytes; off = 0 })
      ≡ some (((lane * 4 + whole) ∷ bytes) ∷ [])
unfolding units next_unit plan
units-whole fuel lane bytes l =
    ground (arith, take-all (length bytes) bytes, take-all (length bytes - 0) bytes)

units-last :
    (fuel lane : ℕ) (bytes : List ℕ) (off : ℕ)
    → 0 < off
    → off < length bytes
    → length bytes ≤ off + fragment
    → units (suc fuel) (record { lane = lane; bytes = bytes; off = off })
      ≡ some (((lane * 4 + last) ∷ take (length bytes - off) (drop off bytes)) ∷ [])
unfolding units next_unit plan
units-last fuel lane bytes off z l m = ground arith

plan-mid :
    (off remaining : ℕ) → 0 < off → fragment < remaining → plan off remaining ≡ (mid, fragment)
unfolding plan
plan-mid off remaining z l = ground arith

plan-first : (remaining : ℕ) → fragment < remaining → plan 0 remaining ≡ (first, fragment)
unfolding plan
plan-first remaining l = ground arith

units-mid :
    (fuel lane : ℕ) (bytes : List ℕ) (off : ℕ) (us : List (List ℕ))
    → 0 < off
    → off + fragment < length bytes
    → units fuel (record { lane = lane; bytes = bytes; off = off + fragment }) ≡ some us
    → units (suc fuel) (record { lane = lane; bytes = bytes; off = off })
      ≡ some (((lane * 4 + mid) ∷ take fragment (drop off bytes)) ∷ us)
unfolding units next_unit
units-mid fuel lane bytes off us z l e =
    let a = plan-mid off (length bytes - off) z (omega arith) in
    let b : leb (length bytes) (off + fragment) ≡ false = ground arith in
    rw (a, b, e) (ap (λ u. some (u ∷ us)) (rw a))

units-first :
    (fuel lane : ℕ) (bytes : List ℕ) (us : List (List ℕ))
    → fragment < length bytes
    → units fuel (record { lane = lane; bytes = bytes; off = 0 + fragment }) ≡ some us
    → units (suc fuel) (record { lane = lane; bytes = bytes; off = 0 })
      ≡ some (((lane * 4 + first) ∷ take fragment bytes) ∷ us)
unfolding units next_unit
units-first fuel lane bytes us l e =
    let a = plan-first (length bytes - 0) (omega arith) in
    let b : leb (length bytes) (0 + fragment) ≡ false = ground arith in
    rw (a, b, e) (ap (λ u. some (u ∷ us)) (rw a))

-- What a sequence of units does to a reader: it completes the one message and frees its lane.
abbrev pub Delivers : Partial → ℕ → List ℕ → List (List ℕ) → Type 0
Delivers p lane bytes us =
    (p' : Partial) × (receive_all p us ≡ ok ((lane, bytes) ∷ [], p'))
    × (p' lane ≡ [])
    × ((k : ℕ) → k ≢ lane → p' k ≡ p k)

Delivers-end :
    (p : Partial) (lane flag : ℕ) (bytes body : List ℕ)
    → lane ≤ 2
    → flag < 4
    → lane_receive (p lane) flag body ≡ ok (some bytes, [])
    → Delivers p lane bytes (((lane * 4 + flag) ∷ body) ∷ [])
unfolding receive_all deliver update
Delivers-end p lane flag bytes body l f e = (
  update p lane [],
  ground (arith, receive_unit p lane flag body f, e),
  ground arith,
  λ k n. ground arith,
)

Delivers-step :
    (p : Partial) (lane flag : ℕ) (bytes body b : List ℕ) (us : List (List ℕ))
    → lane ≤ 2
    → flag < 4
    → lane_receive (p lane) flag body ≡ ok (none, b)
    → Delivers (update p lane b) lane bytes us
    → Delivers p lane bytes (((lane * 4 + flag) ∷ body) ∷ us)
unfolding receive_all deliver update
Delivers-step p lane flag bytes body b us l f e (p', r, z, k) =
    (p', ground (arith, receive_unit p lane flag body f, e, r), z, λ j n. k j n ∙ ground arith)

-- The rest of a message that the reader has the beginning of.
rest_of_message :
    (fuel lane : ℕ) (bytes : List ℕ) (off : ℕ) (p : Partial)
    → 0 < off
    → off < length bytes
    → length bytes ≤ max_frame
    → lane ≤ 2
    → length bytes ≤ off + fuel * fragment
    → p lane ≡ take off bytes
    → (us : List (List ℕ)) × (units fuel (record { lane = lane; bytes = bytes; off = off })
        ≡ some us)
      × Delivers p lane bytes us
unfolding update
rest_of_message zero lane bytes off p z l m n h e = absurd (omega arith)
rest_of_message (suc fuel) lane bytes off p z l m n h e =
    elim (Bool-cases (leb (length bytes) (off + fragment))) [
      | inl q ↦
          let d = lane_receive-last bytes off z l m in
          (
            _,
            units-last fuel lane bytes off z l (ground arith),
            Delivers-end p lane last bytes _ n (omega arith) (rw e d),
          )
      | inr q ↦
          let d = lane_receive-mid bytes off fragment z (ground arith) m in
          let (us, u, r) =
            rest_of_message fuel lane bytes (off + fragment)
              (update p lane (take (off + fragment) bytes)) (omega arith) (ground arith) m n
              (omega arith) (ground arith) in
          (
            _,
            units-mid fuel lane bytes off us z (ground arith) u,
            Delivers-step p lane mid bytes _ _ us n (omega arith) (rw e d) r,
          )
    ]

-- A message of at most MAX_FRAME bytes, cut into units on one of the three lanes and fed to a
-- reader whose buffer for that lane is empty: one round for each fragment and one more cut it up,
-- the units complete exactly that message, the lane's buffer is empty again and the buffers of
-- the other lanes are as they were.
pub receive_all-units :
    (fuel lane : ℕ) (bytes : List ℕ) (p : Partial)
    → length bytes ≤ max_frame
    → lane ≤ 2
    → length bytes ≤ fuel * fragment
    → p lane ≡ []
    → (us : List (List ℕ)) × (units (suc fuel) (record { lane = lane; bytes = bytes; off = 0 })
        ≡ some us)
      × Delivers p lane bytes us
unfolding update lane_receive
receive_all-units fuel lane bytes p m n h e = elim (Bool-cases (leb (length bytes) fragment)) [
  | inl q ↦ (
    _,
    units-whole fuel lane bytes (ground arith),
    Delivers-end p lane whole bytes bytes n (omega arith) (rw e refl),
  )
  | inr q ↦
      let (us, u, r) =
        rest_of_message fuel lane bytes (0 + fragment) (update p lane (take fragment bytes))
          (omega arith) (ground arith) m n (omega arith) (ground arith) in
      (
        _,
        units-first fuel lane bytes us (ground arith) u,
        Delivers-step p lane first bytes _ _ us n (omega arith)
            (lane_receive-first bytes (p lane) fragment (omega arith)) r,
      )
]
