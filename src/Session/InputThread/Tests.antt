-- ===== src/Session/InputThread/Tests.antt =====
-- The theorems about the input thread on concrete events.
use remote_x.Prelude.{ℕ, ◌≡◌, ◌+◌, true, false, List, [], ◌∷◌, some, length, retain}
use remote_x.Common.Event.{left, InputEvent, DisplayInfo}
use remote_x.Session.InputThread.{
  InboundInput, InputShared, Thread, coalesce_moves, Step, permit, take,
}
use remote_x.Session.InputThread.Coalesce.{is_other, spaced, last_of, coalesce_moves-keeps}

abbrev move_to : ℕ → InboundInput
move_to n = record { seq = n; ev = InputEvent.mouse_move n n }

abbrev click : ℕ → InboundInput
click n = record { seq = n; ev = InputEvent.mouse_button left true }

abbrev waiting : List InboundInput
waiting = move_to 2 ∷ click 3 ∷ move_to 4 ∷ move_to 5 ∷ []

coalesce_moves-keeps_example :
    (retain is_other (coalesce_moves (move_to 1 ∷ waiting)).0
      ≡ retain is_other (move_to 1 ∷ waiting))
    × (spaced (coalesce_moves (move_to 1 ∷ waiting)).0 ≡ true)
    × (last_of (coalesce_moves (move_to 1 ∷ waiting)).0 ≡ last_of (move_to 1 ∷ waiting))
    × (length (coalesce_moves (move_to 1 ∷ waiting)).0 + (coalesce_moves (move_to 1 ∷ waiting)).1
        ≡ length (move_to 1 ∷ waiting))
coalesce_moves-keeps_example = coalesce_moves-keeps (move_to 1) waiting

abbrev display : DisplayInfo
display = record { index = 0; name = []; width = 1920; height = 1080; x = 0; y = 0; primary = true }

abbrev shared : InputShared
shared = record {
  mouse = true;
  keyboard = false;
  displays = display ∷ [];
  active = 0;
  elevated = some false;
  elevated_lost = false;
}

abbrev idle : Thread
idle = record {
  last_move_seq = 0;
  stale_moves = 0;
  applied_input_seq = 0;
  queue_us = 0;
  apply_us = 0;
}

-- A move, then the mouse is forbidden, then a click.
abbrev steps : List Step
steps = take (move_to 1) 5 6 ∷ permit false false ∷ take (click 2) 5 6 ∷ []
