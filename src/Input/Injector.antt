-- ===== src/Input/Injector.antt =====
-- crates/input/src/injector.rs: the SendInput records of an event, and what the injector holds
-- down. A HashSet is a list of keys; `to_virtual_abs`, which works in floats, is the parameter `place`.
pub mod Held
mod Tests
use remote_x.Prelude.{
  ℕ, ◌+◌, ◌-◌, ◌/◌, ◌%◌, Bool, true, false, not, List, [], ◌∷◌, ◌++◌, map, ltb, nat_beq,
  if◌then◌else◌,
}
use remote_x.Prelude.Eq.{Eq, nat_eq, bool_eq, pair_eq}
use remote_x.Common.Text.{Text}
use remote_x.Map.{contains, without}
use remote_x.Common.Event.{MouseButton, left, right, middle, back, forward, InputEvent, DisplayInfo}

-- The dwFlags of the mouse records that the program builds, and its keyboard flags as a record.
pub data MouseFlags : Type 0 where
  move_absolute wheel_v wheel_h : MouseFlags
  left_down left_up right_down right_up middle_down middle_up x_down x_up : MouseFlags

pub record KeyFlags : Type 0 where
  pub scancode : Bool
  pub unicode : Bool
  pub extended : Bool
  pub up : Bool

pub data Input : Type 0 where
  mouse : MouseFlags → ℕ → ℕ → ℕ → Input
  key : ℕ → KeyFlags → Input

unfoldable pub button_flags : MouseButton → Bool → MouseFlags × ℕ
button_flags left true = (left_down, 0)
button_flags left false = (left_up, 0)
button_flags right true = (right_down, 0)
button_flags right false = (right_up, 0)
button_flags middle true = (middle_down, 0)
button_flags middle false = (middle_up, 0)
button_flags back true = (x_down, 1)
button_flags back false = (x_up, 1)
button_flags forward true = (x_down, 2)
button_flags forward false = (x_up, 2)

-- `b as u8`, and the button that `release_records` takes an id for.
unfoldable pub button_id : MouseButton → ℕ
button_id left = 0
button_id right = 1
button_id middle = 2
button_id back = 3
button_id forward = 4

unfoldable pub button_of : ℕ → MouseButton
button_of b =
    if nat_beq b 0
    then left
    else if nat_beq b 1
    then right
    else if nat_beq b 2
    then middle
    else if nat_beq b 3
    then back
    else forward

pub record Injector : Type 0 where
  pub held_keys : List (ℕ × Bool)
  pub held_buttons : List ℕ

unfoldable pub new : Injector
new = record { held_keys = []; held_buttons = [] }

-- HashSet::insert
unfoldable pub add {ℓ} : {K : Type ℓ} ⦃e : Eq K⦄ → K → List K → List K
add k ks = k ∷ without k ks

abbrev pub key_flags : Bool → Bool → KeyFlags
key_flags ext up = record { scancode = true; unicode = false; extended = ext; up = up }

abbrev pub unicode_flags : Bool → KeyFlags
unicode_flags up = record { scancode = false; unicode = true; extended = false; up = up }

unfoldable pub release_key : ℕ × Bool → Input
release_key (scan, ext) = key scan (key_flags ext true)

unfoldable pub release_button : ℕ → Input
unfolding button_of button_flags
release_button b = let (f, d) = button_flags (button_of b) false in mouse f 0 0 d

unfoldable pub release_records : Injector → List Input × Injector
unfolding new release_key release_button
release_records i = (map release_key i.held_keys ++ map release_button i.held_buttons, new)

-- `encode_utf16`: one unit for a code point below 2 ^ 16, a surrogate pair for any other.
unfoldable pub encode_utf16 : Text → List ℕ
encode_utf16 [] = []
encode_utf16 (c ∷ s) =
    let rest = encode_utf16 s in
    if ltb c 0x1_0000
    then c ∷ rest
    else (0xd800 + (c - 0x1_0000) / 0x400) ∷ (0xdc00 + (c - 0x1_0000) % 0x400) ∷ rest

-- Each UTF-16 unit goes down and up.
unfoldable pub type_text : List ℕ → List Input
type_text [] = []
type_text (u ∷ us) = key u (unicode_flags false) ∷ key u (unicode_flags true) ∷ type_text us

-- The high words of a wheel record's data: `*d as i32 as u32`.
unfoldable pub sign_extend : ℕ → ℕ
sign_extend d = if ltb d 32768 then d else d + 4294901760

module _ (place : ℕ → ℕ → DisplayInfo → ℕ × ℕ) where
  unfoldable pub build : InputEvent → DisplayInfo → Injector → List Input × Injector
  unfolding release_records type_text encode_utf16 sign_extend add button_id button_flags
  build (InputEvent.mouse_move x y) d i =
      let (ax, ay) = place x y d in (mouse move_absolute ax ay 0 ∷ [], i)
  build (InputEvent.mouse_button b down) d i =
      let (f, data_) = button_flags b down in
      (
        mouse f 0 0 data_ ∷ [],
        record i {
          held_buttons =
              if down
              then add (button_id b) i.held_buttons
              else without (button_id b) i.held_buttons;
        },
      )
  build (InputEvent.wheel dx dy) d i = (
    (if nat_beq dy 0 then [] else mouse wheel_v 0 0 (sign_extend dy) ∷ [])
        ++ (if nat_beq dx 0 then [] else mouse wheel_h 0 0 (sign_extend dx) ∷ []),
    i,
  )
  build (InputEvent.key scan ext down) d i =
      if (if nat_beq scan 0 then true else ltb 255 scan) then ([], i) else (
        key scan (key_flags ext (not down)) ∷ [],
        record i {
          held_keys = if down then add (scan, ext) i.held_keys else without (scan, ext) i.held_keys;
        },
      )
  build (InputEvent.text s) d i = (type_text (encode_utf16 s), i)
  build InputEvent.release_all d i = release_records i

  -- The records of a sequence of events, in order.
  unfoldable pub build_all : List (InputEvent × DisplayInfo) → Injector → List Input × Injector
  build_all [] i = ([], i)
  build_all ((ev, d) ∷ evs) i =
      let (rs, i') = build ev d i in let (rest, i'') = build_all evs i' in (rs ++ rest, i'')
