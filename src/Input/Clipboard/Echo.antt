-- ===== src/Input/Clipboard/Echo.antt =====
-- crates/input/src/clipboard.rs: what is sent is never what was sent or received last.
use remote_x.Prelude.{
  ℕ, ◌<◌, ◌≤◌, ◌≡◌, refl, subst, false, ◌||◌, List, [], ◌∷◌, Option, none, some, ltb, nat_beq,
  if_both, option_both, arith,
}
use remote_x.Prelude.Eq.{Eq}
use remote_x.Common.Text.{Text}
use remote_x.Common.Peer.{ClipboardPayload}
use remote_x.Input.Clipboard.{
  Backend, ClipboardSync, size, digest, is_some, Refused, Happening, changes, polls, receives,
  Moved, taken, sent, consider, poll_local, apply_remote, step, moves, as_sent, as_taken,
}

module _ {B : Type 0} {D : Type 0} ⦃e : Eq D⦄ (backend : Backend B) (sha256 : List ℕ → D)
    (utf8 : Text → List ℕ) (most : ℕ) where
  -- Whatever is sent has content, is within the limit and is not what moved last.
  unfoldable pub IsFresh : Option D → List Moved → Type 0
  unfolding size
  IsFresh last [] = Unit
  IsFresh last (taken p ∷ rest) = (size p ≤ most) × IsFresh (some (digest sha256 utf8 p)) rest
  IsFresh last (sent p ∷ rest) =
      (is_some (digest sha256 utf8 p) last ≡ false)
      × (0 < size p)
      × (size p ≤ most)
      × IsFresh (some (digest sha256 utf8 p)) rest

  -- What a step moves, and that the state remembers it.
  unfoldable pub Remembers : Option D → Option Moved × ClipboardSync B D → Type 0
  unfolding size
  Remembers last (none, c) = (c.last_sent ≡ last) × (c.max_bytes ≡ most)
  Remembers last (some (taken p), c) =
      (c.last_sent ≡ some (digest sha256 utf8 p)) × (c.max_bytes ≡ most) × (size p ≤ most)
  Remembers last (some (sent p), c) =
      (c.last_sent ≡ some (digest sha256 utf8 p))
      × (c.max_bytes ≡ most)
      × (is_some (digest sha256 utf8 p) last ≡ false)
      × (0 < size p)
      × (size p ≤ most)

  consider-Remembers :
      (p : ClipboardPayload) (c : ClipboardSync B D)
      → c.max_bytes ≡ most
      → Remembers c.last_sent (as_sent (consider backend sha256 utf8 p c))
  unfolding consider Remembers
  consider-Remembers p c h =
      let P : Option ClipboardPayload × ClipboardSync B D → Type 0 =
        λ r. Remembers c.last_sent (as_sent r) in
      let d : D = digest sha256 utf8 p in
      if_both P (nat_beq (size p) 0 || ltb c.max_bytes (size p)) (λ x. (refl, h))
        (λ x.
          if_both P (is_some d c.suppressed) (λ y. (refl, h))
            (λ y.
              if_both P (is_some d c.last_sent) (λ z. (refl, h))
                (λ z. (refl, h, z, ground (arith, x), ground (arith, x, h)))))

  poll_local-Remembers :
      (c : ClipboardSync B D)
      → c.max_bytes ≡ most
      → Remembers c.last_sent (as_sent (poll_local backend sha256 utf8 c))
  unfolding poll_local Remembers
  poll_local-Remembers c h =
      let P : Option ClipboardPayload × ClipboardSync B D → Type 0 =
        λ r. Remembers c.last_sent (as_sent r) in
      if_both P (nat_beq (backend.sequence c.backend) c.last_seq) (λ x. (refl, h))
        (λ x.
          option_both P (backend.read c.backend).0 (λ y. (refl, h))
            (λ p y.
              consider-Remembers p
                (record c {
                  last_seq = backend.sequence c.backend;
                  backend = (backend.read c.backend).1;
                })
                h))

  apply_remote-Remembers :
      (p : ClipboardPayload) (c : ClipboardSync B D)
      → c.max_bytes ≡ most
      → Remembers c.last_sent (as_taken p (apply_remote backend sha256 utf8 p c))
  unfolding apply_remote Remembers
  apply_remote-Remembers p c h =
      let P : Option Refused × ClipboardSync B D → Type 0 =
        λ r. Remembers c.last_sent (as_taken p r) in
      if_both P (ltb c.max_bytes (size p)) (λ x. (refl, h))
        (λ x.
          if_both P (backend.write p c.backend).0 (λ y. (refl, h, ground (arith, x, h)))
            (λ y. (refl, h, ground (arith, x, h))))

  step-Remembers :
      (s : Happening B) (c : ClipboardSync B D)
      → c.max_bytes ≡ most
      → Remembers c.last_sent (step backend sha256 utf8 s c)
  unfolding step Remembers
  step-Remembers (changes f) c h = (refl, h)
  step-Remembers polls c h = poll_local-Remembers c h
  step-Remembers (receives p) c h = apply_remote-Remembers p c h

  -- One move more, or none.
  abbrev more : Option Moved → List Moved → List Moved
  more m rest = elim m [ none ↦ rest | some x ↦ x ∷ rest ]

  more-IsFresh :
      (last : Option D) (r : Option Moved × ClipboardSync B D) (rest : List Moved)
      → Remembers last r
      → IsFresh r.1.last_sent rest
      → IsFresh last (more r.0 rest)
  unfolding Remembers IsFresh
  more-IsFresh last (none, c) rest h fresh = subst (λ l. IsFresh l rest) h.0 fresh
  more-IsFresh last (some (taken p), c) rest h fresh = (h.2, subst (λ l. IsFresh l rest) h.0 fresh)
  more-IsFresh last (some (sent p), c) rest h fresh =
      (h.2, h.3, h.4, subst (λ l. IsFresh l rest) h.0 fresh)

  Remembers-max :
      (last : Option D) (r : Option Moved × ClipboardSync B D)
      → Remembers last r
      → r.1.max_bytes ≡ most
  unfolding Remembers
  Remembers-max last (none, c) h = h.1
  Remembers-max last (some (taken p), c) h = h.1
  Remembers-max last (some (sent p), c) h = h.1

  -- However the clipboard changes and whatever the peer sends: what is sent to the peer is not
  -- empty and within the limit, and its digest is not that of the content that was sent or taken
  -- last; so what the peer sent is not sent back.
  pub moves-IsFresh :
      (hs : List (Happening B)) (c : ClipboardSync B D)
      → c.max_bytes ≡ most
      → IsFresh c.last_sent (moves backend sha256 utf8 hs c)
  unfolding moves IsFresh
  moves-IsFresh [] c h = tt
  moves-IsFresh (s ∷ hs) c h =
      let r : Option Moved × ClipboardSync B D = step backend sha256 utf8 s c in
      let remembers : Remembers c.last_sent r = step-Remembers s c h in
      more-IsFresh c.last_sent r (moves backend sha256 utf8 hs r.1) remembers
        (moves-IsFresh hs r.1 (Remembers-max c.last_sent r remembers))
