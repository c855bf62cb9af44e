-- ===== src/Input/Injector/Tests.antt =====
-- The theorem about held input on a concrete run.
use remote_x.Prelude.{ℕ, ◌≡◌, true, false, List, [], ◌∷◌, ◌++◌}
use remote_x.Common.Event.{back, InputEvent, DisplayInfo}
use remote_x.Input.Injector.{new, release_records, build_all}
use remote_x.Input.Injector.Held.{key_effect, button_effect, after, release_records-all}

abbrev place : ℕ → ℕ → DisplayInfo → ℕ × ℕ
place x y d = (x, y)

abbrev display : DisplayInfo
display = record { index = 0; name = []; width = 1920; height = 1080; x = 0; y = 0; primary = true }

-- Ctrl and Back go down, a text is typed, the pointer moves, and Ctrl comes up.
abbrev events : List (InputEvent × DisplayInfo)
events =
    (InputEvent.key 29 false true, display)
    ∷ (InputEvent.mouse_button back true, display)
    ∷ (InputEvent.text (1575 ∷ []), display)
    ∷ (InputEvent.mouse_move 5 6, display)
    ∷ (InputEvent.key 29 false false, display)
    ∷ []

release_records-all_example :
    (after key_effect
        (29, false)
        ((build_all place events new).0 ++ (release_records (build_all place events new).1).0)
        false
      ≡ false)
    × (after button_effect back
          ((build_all place events new).0 ++ (release_records (build_all place events new).1).0)
          false
        ≡ false)
release_records-all_example = release_records-all place events (29, false) back
