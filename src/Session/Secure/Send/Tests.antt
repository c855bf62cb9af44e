-- ===== src/Session/Secure/Send/Tests.antt =====
-- The theorem about sending on a move, a click and another move.
use remote_x.Prelude.{ℕ, ◌≡◌, true, List, [], ◌∷◌, ◌++◌, none, some}
use remote_x.Common.Event.{left, InputEvent}
use remote_x.Session.Secure.Send.{SecureTx, waiting}
use remote_x.Session.Secure.Send.Order.{
  HoldsMove, send_all, others, other_events, events, newest, send_all-HoldsMove,
}

abbrev idle : SecureTx
idle = record {
  clock = record { next = 0; slots = λ i. 0 };
  ctl = [];
  pending_move = none;
  moves_coalesced = 0;
}

abbrev sent : List (ℕ × InputEvent)
sent = (1, InputEvent.mouse_move 5 5) ∷ (2, InputEvent.mouse_button left true) ∷ []

abbrev move_on : InputEvent
move_on = InputEvent.mouse_move 6 6

send_all-HoldsMove_example :
    HoldsMove (send_all (sent ++ ((3, move_on) ∷ [])) idle).pending_move
    × (others (send_all (sent ++ ((3, move_on) ∷ [])) idle).ctl
        ≡ others idle.ctl ++ other_events (events (sent ++ ((3, move_on) ∷ []))))
    × (newest (
          (send_all (sent ++ ((3, move_on) ∷ [])) idle).ctl
          ++ waiting (send_all (sent ++ ((3, move_on) ∷ [])) idle).pending_move)
        ≡ some move_on)
send_all-HoldsMove_example = send_all-HoldsMove sent 3 move_on idle tt
