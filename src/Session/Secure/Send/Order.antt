-- ===== src/Session/Secure/Send/Order.antt =====
-- What is sent arrives in the queue in order, and nothing but an outdated position is left out.
use mathlib.Core.List.{append_assoc, append-nil}
use remote_x.Prelude.{
  ℕ, ◌≡◌, refl, ap, sym, ◌∙◌, true, false, List, [], ◌∷◌, ◌++◌, Option, none, some, arith,
  if◌then◌else◌, inl, inr, Option-cases, if_both,
}
use remote_x.Common.Event.{InputEvent}
use remote_x.Session.InputThread.{is_move}
use remote_x.Session.Secure.Send.{Queued, stamp, SecureTx, waiting, put_move, put_other, send_input}

-- The events of a queue that are not moves.
unfoldable pub others : List Queued → List InputEvent
others [] = []
others (q ∷ qs) = if is_move q.ev then others qs else q.ev ∷ others qs

unfoldable pub other_events : List InputEvent → List InputEvent
other_events [] = []
other_events (e ∷ es) = if is_move e then other_events es else e ∷ other_events es

-- The slot holds a move or nothing.
abbrev pub HoldsMove : Option Queued → Type 0
HoldsMove none = Unit
HoldsMove (some q) = is_move q.ev ≡ true

unfoldable pub send_all : List (ℕ × InputEvent) → SecureTx → SecureTx
send_all [] tx = tx
send_all ((now, ev) ∷ evs) tx = send_all evs (send_input now ev tx).1

abbrev pub events : List (ℕ × InputEvent) → List InputEvent
events [] = []
events ((now, ev) ∷ evs) = ev ∷ events evs

others-append : (ps qs : List Queued) → others (ps ++ qs) ≡ others ps ++ others qs
unfolding others
others-append [] qs = refl
others-append (p ∷ ps) qs = ground (arith, others-append ps qs)

others-waiting : (m : Option Queued) → HoldsMove m → others (waiting m) ≡ []
unfolding others
others-waiting none h = refl
others-waiting (some q) h = rw h refl

-- The last of a queue's entries.
unfoldable pub newest : List Queued → Option InputEvent
newest [] = none
newest (q ∷ []) = some q.ev
newest (q ∷ r ∷ qs) = newest (r ∷ qs)

newest-append : (qs : List Queued) (q : Queued) → newest (qs ++ (q ∷ [])) ≡ some q.ev
unfolding newest
newest-append [] q = refl
newest-append (p ∷ []) q = refl
newest-append (p ∷ r ∷ qs) q = newest-append (r ∷ qs) q

abbrev Keeps : SecureTx → InputEvent → SecureTx → Type 0
Keeps tx ev tx' =
    HoldsMove tx'.pending_move
    × (others tx'.ctl ≡ others tx.ctl ++ other_events (ev ∷ []))
    × (newest (tx'.ctl ++ waiting tx'.pending_move) ≡ some ev)

put_move-HoldsMove :
    (q : Queued) (tx : SecureTx) → is_move q.ev ≡ true → Keeps tx q.ev (put_move q tx)
unfolding put_move other_events
put_move-HoldsMove q tx m = elim (Option-cases tx.pending_move) [
  | inl e ↦ rw (e, m) (refl, sym (append-nil (others tx.ctl)), newest-append tx.ctl q)
  | inr (old, e) ↦
      rw (e, m)
        (refl, sym (append-nil (others tx.ctl)), newest-append tx.ctl (record q { at = old.at }))
]

put_other-HoldsMove :
    (q : Queued) (tx : SecureTx)
    → is_move q.ev ≡ false
    → HoldsMove tx.pending_move
    → Keeps tx q.ev (put_other q tx)
unfolding put_other other_events others newest
put_other-HoldsMove q tx m h = (
  tt,
  others-append (tx.ctl ++ waiting tx.pending_move) (q ∷ [])
      ∙ ap (λ xs. xs ++ others (q ∷ []))
          (others-append tx.ctl (waiting tx.pending_move)
            ∙ ap (λ xs. others tx.ctl ++ xs) (others-waiting tx.pending_move h)
            ∙ append-nil (others tx.ctl)),
  ap newest (append-nil ((tx.ctl ++ waiting tx.pending_move) ++ (q ∷ [])))
      ∙ newest-append (tx.ctl ++ waiting tx.pending_move) q,
)

send_input-HoldsMove :
    (now : ℕ) (ev : InputEvent) (tx : SecureTx)
    → HoldsMove tx.pending_move
    → Keeps tx ev (send_input now ev tx).1
unfolding send_input
send_input-HoldsMove now ev tx h =
    if_both (λ t. Keeps tx ev t) (is_move ev)
      (λ m.
        put_move-HoldsMove (record { seq = (stamp now tx.clock).0; ev = ev; at = now })
          (record tx { clock = (stamp now tx.clock).1 }) m)
      (λ m.
        put_other-HoldsMove (record { seq = (stamp now tx.clock).0; ev = ev; at = now })
          (record tx { clock = (stamp now tx.clock).1 }) m h)

other_events-cons :
    (e : InputEvent) (es : List InputEvent)
    → other_events (e ∷ es) ≡ other_events (e ∷ []) ++ other_events es
unfolding other_events
other_events-cons e es = ground arith

-- However many events are sent, one at least, while the writer takes nothing and the slot holds
-- a move or nothing: the queue gains every event that is not a move, in the order of sending;
-- what waits in the slot, if anything, is a move; and behind the queue and the slot together
-- stands the event that was sent last.
pub send_all-HoldsMove :
    (evs : List (ℕ × InputEvent)) (now : ℕ) (ev : InputEvent) (tx : SecureTx)
    → HoldsMove tx.pending_move
    → HoldsMove (send_all (evs ++ ((now, ev) ∷ [])) tx).pending_move
      × (others (send_all (evs ++ ((now, ev) ∷ [])) tx).ctl
          ≡ others tx.ctl ++ other_events (events (evs ++ ((now, ev) ∷ []))))
      × (newest (
            (send_all (evs ++ ((now, ev) ∷ [])) tx).ctl
            ++ waiting (send_all (evs ++ ((now, ev) ∷ [])) tx).pending_move)
          ≡ some ev)
unfolding send_all
send_all-HoldsMove [] now ev tx h = send_input-HoldsMove now ev tx h
send_all-HoldsMove ((t, e) ∷ evs) now ev tx h =
    let (a, b, c) = send_input-HoldsMove t e tx h in
    let (x, y, z) = send_all-HoldsMove evs now ev (send_input t e tx).1 a in
    (
      x,
      y
          ∙ ap (λ xs. xs ++ other_events (events (evs ++ ((now, ev) ∷ [])))) b
          ∙ append_assoc (others tx.ctl) (other_events (e ∷ []))
              (other_events (events (evs ++ ((now, ev) ∷ []))))
          ∙ ap (λ xs. others tx.ctl ++ xs)
              (sym (other_events-cons e (events (evs ++ ((now, ev) ∷ []))))),
      z,
    )
