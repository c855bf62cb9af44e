-- ===== src/Elevate/Proto.antt =====
-- crates/elevate/src/proto.rs: the frames on the pipe and the checks on the app's requests. The
-- `postcard` crate is the parameter `Codec`; a pipe is the bytes that are in it.
pub mod Stream
mod Tests
use remote_x.Prelude.{
  ℕ, ◌+◌, ◌*◌, ◌/◌, ◌%◌, ◌^◌, ◌≡◌, ◌≢◌, Bool, true, false, not, List, [], ◌∷◌, ◌++◌, Option, none,
  some, ltb, leb, nat_beq, if◌then◌else◌, length, take, drop,
}
use remote_x.Prelude.Result.{Result, ok, err}
use remote_x.Common.Text.{Text, byte_len}
use remote_x.Common.Event.{InputEvent}

abbrev pub max_message : ℕ
max_message = 16 * 1024 * 1024

abbrev pub max_dimension : ℕ
max_dimension = 7680

pub data FrameError : Type 0 where
  io too_large malformed : FrameError

-- What the code relies on: what was encoded is taken back with nothing left over, and the encoding
-- of a message, which begins with the number of its variant, is not empty.
pub record Codec (T : Type 0) : Type 0 where
  pub to_stdvec : T → Option (List ℕ)
  pub take_from_bytes : List ℕ → Option (T × List ℕ)
  pub back : (v : T) (body : List ℕ) → to_stdvec v ≡ some body → take_from_bytes body ≡ some (v, [])
  pub some_bytes : (v : T) (body : List ℕ) → to_stdvec v ≡ some body → length body ≢ 0

-- `u32::to_le_bytes` and `from_le_bytes`
unfoldable pub to_le_bytes : ℕ → List ℕ
to_le_bytes n = n % 256 ∷ n / 256 % 256 ∷ n / 65536 % 256 ∷ n / 16777216 % 256 ∷ []

unfoldable pub from_le_bytes : List ℕ → ℕ
from_le_bytes [] = 0
from_le_bytes (b ∷ bs) = b + 256 * from_le_bytes bs

-- `read_exact`: the bytes, and what stays in the pipe.
unfoldable pub read_exact : ℕ → List ℕ → Result (List ℕ × List ℕ) FrameError
read_exact n pipe = if ltb (length pipe) n then err io else ok (take n pipe, drop n pipe)

module _ {T : Type 0} (codec : Codec T) where
  open codec use {to_stdvec, take_from_bytes}

  -- The pipe after the write. The source writes the length and the body at once.
  unfoldable pub write_msg : T → List ℕ → Result (List ℕ) FrameError
  write_msg msg pipe = elim (to_stdvec msg) [
    | none ↦ err malformed
    | some body ↦
        if ltb max_message (length body)
        then err too_large
        else ok (pipe ++ (to_le_bytes (length body % 2 ^ 32) ++ body))
  ]

  unfoldable pub parse_body : List ℕ → Result T FrameError
  parse_body body = elim (take_from_bytes body) [
    | none ↦ err malformed
    | some (v, []) ↦ ok v
    | some (v, b ∷ rest) ↦ err malformed
  ]

  -- The message, or the error, and the pipe after the read.
  unfoldable pub read_msg : List ℕ → Result T FrameError × List ℕ
  read_msg pipe = elim (read_exact 4 pipe) [
    | err e ↦ (err e, pipe)
    | ok (len, rest) ↦
        let n = from_le_bytes len in
        if (if nat_beq n 0 then true else ltb max_message n)
        then (err too_large, rest)
        else (elim (read_exact n rest) [
          | err e ↦ (err e, rest)
          | ok (body, left) ↦ (parse_body body, left)
        ])
  ]

-- DisplayInfo as far as it is checked.
pub record Display : Type 0 where
  pub name : Text
  pub width : ℕ
  pub height : ℕ

pub data ConnRole : Type 0 where
  input_role video_role : ConnRole

-- A token is its sixteen bytes, as one number.
pub data UiToService : Type 0 where
  hello : ℕ → UiToService
  grant : Text → UiToService
  attach : ℕ → ConnRole → UiToService
  revoke heartbeat status : UiToService
  input : InputEvent → Display → UiToService
  capture : Display → ℕ → ℕ → UiToService

pub data Refusal : Type 0 where
  label_too_long text_too_long bad_output_size output_size_must_be_even : Refusal
  bad_display_size display_name_too_long : Refusal

unfoldable pub check_display : Display → Option Refusal
check_display d =
    if (if nat_beq d.width 0
      then true
      else if nat_beq d.height 0
      then true
      else if ltb max_dimension d.width
      then true
      else ltb max_dimension d.height)
    then some bad_display_size
    else if ltb 256 (byte_len d.name)
    then some display_name_too_long
    else none

abbrev pub is_long_text : InputEvent → Bool
is_long_text (InputEvent.text us) = ltb 4096 (length us)
is_long_text ev = false

unfoldable pub validate_ui : UiToService → Option Refusal
unfolding check_display
validate_ui (grant label) = if ltb 128 (byte_len label) then some label_too_long else none
validate_ui (input ev d) = if is_long_text ev then some text_too_long else check_display d
validate_ui (capture d w h) = elim (check_display d) [
  | some why ↦ some why
  | none ↦
      if (if ltb w 16
        then true
        else if ltb h 16
        then true
        else if ltb max_dimension w
        then true
        else ltb max_dimension h)
      then some bad_output_size
      else if (if nat_beq (w % 2) 0 then not (nat_beq (h % 2) 0) else true)
      then some output_size_must_be_even
      else none
]
validate_ui m = none
