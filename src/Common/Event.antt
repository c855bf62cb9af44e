-- ===== src/Common/Event.antt =====
-- crates/common/src/peer.rs: input events.
use remote_x.Prelude.{ℕ, Bool}
use remote_x.Common.Text.{Text}

pub data MouseButton : Type 0 where
  left right middle back forward : MouseButton

-- Wheel distances are 16-bit words in two's complement.
pub data InputEvent : Type 0 where
  mouse_move : ℕ → ℕ → InputEvent
  mouse_button : MouseButton → Bool → InputEvent
  wheel : ℕ → ℕ → InputEvent
  key : ℕ → Bool → Bool → InputEvent
  text : Text → InputEvent
  release_all : InputEvent

-- The offsets x and y are 32-bit words in two's complement.
pub record DisplayInfo : Type 0 where
  pub index : ℕ
  pub name : Text
  pub width : ℕ
  pub height : ℕ
  pub x : ℕ
  pub y : ℕ
  pub primary : Bool
