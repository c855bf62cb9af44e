-- ===== src/Common/Peer.antt =====
-- crates/common/src/peer.rs: the messages between viewer and host, and the checks on a decoded one.
-- Bytes are numbers; an `f32` is a value of the parameter `F`.
pub mod Bounds
mod Tests
use remote_x.Prelude.{
  ℕ, ◌+◌, ◌*◌, ◌^◌, Bool, true, false, ◌&&◌, not, List, [], ◌∷◌, Option, none, some, ltb, nat_beq,
  length, if◌then◌else◌,
}
use remote_x.Common.Text.{Text, byte_len}
use remote_x.Common.Event.{InputEvent, DisplayInfo}
use remote_x.Session.Secure.Fragment.{max_frame}

abbrev pub max_text : ℕ
max_text = 2 ^ 20

abbrev pub max_chunk : ℕ
max_chunk = 256 * 1024

abbrev pub max_cursor_pixels : ℕ
max_cursor_pixels = 128 * 128 * 4

pub record Permissions : Type 0 where
  pub view : Bool
  pub mouse : Bool
  pub keyboard : Bool
  pub clipboard : Bool
  pub files : Bool
  pub elevated : Bool

abbrev pub all : Permissions
all = record {
  view = true;
  mouse = true;
  keyboard = true;
  clipboard = true;
  files = true;
  elevated = false;
}

abbrev pub all_elevated : Permissions
all_elevated = record all { elevated = true }

abbrev pub no_permissions : Permissions
no_permissions = record {
  view = false;
  mouse = false;
  keyboard = false;
  clipboard = false;
  files = false;
  elevated = false;
}

-- A grant can never exceed what was requested.
unfoldable pub intersect : Permissions → Permissions → Permissions
intersect p q = record {
  view = p.view && q.view;
  mouse = p.mouse && q.mouse;
  keyboard = p.keyboard && q.keyboard;
  clipboard = p.clipboard && q.clipboard;
  files = p.files && q.files;
  elevated = p.elevated && q.elevated;
}

pub data RejectReason : Type 0 where
  declined timeout busy : RejectReason

pub data Codec : Type 0 where
  h264 h265 av1 : Codec

pub data Preset : Type 0 where
  auto best_quality balanced low_latency low_bandwidth : Preset

pub record QualitySettings : Type 0 where
  pub preset : Preset
  pub fps : ℕ
  pub max_height : ℕ
  pub bitrate_kbps : ℕ
  pub codec : Option Codec
  pub hardware : Bool
  pub adaptive : Bool

pub record VideoFrame : Type 0 where
  pub seq : ℕ
  pub display : ℕ
  pub codec : Codec
  pub keyframe : Bool
  pub width : ℕ
  pub height : ℕ
  pub captured_ms : ℕ
  pub input_seq : ℕ
  pub bytes : List ℕ

pub record CursorShape : Type 0 where
  pub id : ℕ
  pub width : ℕ
  pub height : ℕ
  pub hot_x : ℕ
  pub hot_y : ℕ
  pub rgba : List ℕ

pub record CursorUpdate : Type 0 where
  pub x : ℕ
  pub y : ℕ
  pub visible : Bool
  pub shape : Option CursorShape

pub data ClipboardPayload : Type 0 where
  clip_text : Text → ClipboardPayload
  clip_image : List ℕ → ClipboardPayload

pub record DirEntry : Type 0 where
  pub name : Text
  pub is_dir : Bool
  pub size : ℕ

pub data FileMsg : Type 0 where
  offer : ℕ → Text → ℕ → FileMsg
  accept : ℕ → ℕ → FileMsg
  reject_file : ℕ → Text → FileMsg
  chunk : ℕ → ℕ → List ℕ → FileMsg
  done : ℕ → List ℕ → FileMsg
  verified : ℕ → Bool → FileMsg
  cancel : ℕ → FileMsg
  list_dir : Text → FileMsg
  dir_listing : Text → List DirEntry → Option Text → FileMsg
  fetch : ℕ → Text → FileMsg

pub record HostStats (F : Type 0) : Type 0 where
  pub fps : F
  pub bitrate_kbps : ℕ
  pub capture_ms : F
  pub encode_ms : F
  pub dropped : ℕ
  pub encoder : Text
  pub codec : Option Codec
  pub width : ℕ
  pub height : ℕ
  pub input_queue_us : ℕ
  pub input_apply_us : ℕ
  pub stale_moves_dropped : ℕ

pub data Msg (F : Type 0) : Type 0 where
  accepted : Permissions → List DisplayInfo → ℕ → Text → Msg F
  rejected : RejectReason → Msg F
  video : VideoFrame → Msg F
  cursor : CursorUpdate → Msg F
  permissions_changed : Permissions → Msg F
  displays_changed : List DisplayInfo → ℕ → Msg F
  stats : HostStats F → Msg F
  select_display : ℕ → Msg F
  set_quality : QualitySettings → Msg F
  request_keyframe : Msg F
  clipboard : ClipboardPayload → Msg F
  file : FileMsg → Msg F
  chat : ℕ → Text → ℕ → Msg F
  ping pong : ℕ → Msg F
  bye : Msg F
  input_at : ℕ → InputEvent → Msg F
  input_ack : ℕ → ℕ → ℕ → Msg F

pub data Invalid : Type 0 where
  video_too_large text_input_too_long clipboard_too_large clipboard_image_too_large : Invalid
  chat_too_long chunk_too_large path_too_long bad_cursor_shape too_many_displays : Invalid

-- `none` is Ok.
abbrev pub refuse_if : Bool → Invalid → Option Invalid
refuse_if b why = if b then some why else none

unfoldable pub validate_input : InputEvent → Option Invalid
validate_input (InputEvent.text s) = refuse_if (ltb 4096 (length s)) text_input_too_long
validate_input ev = none

unfoldable pub validate_clipboard : ClipboardPayload → Option Invalid
validate_clipboard (clip_text s) = refuse_if (ltb max_text (byte_len s)) clipboard_too_large
validate_clipboard (clip_image b) =
    refuse_if (ltb (16 * 1024 * 1024) (length b)) clipboard_image_too_large

unfoldable pub validate_file : FileMsg → Option Invalid
validate_file (chunk id offset b) = refuse_if (ltb max_chunk (length b)) chunk_too_large
validate_file (offer id name size) = refuse_if (ltb 1024 (byte_len name)) path_too_long
validate_file (fetch id path) = refuse_if (ltb 1024 (byte_len path)) path_too_long
validate_file (list_dir path) = refuse_if (ltb 1024 (byte_len path)) path_too_long
validate_file m = none

unfoldable pub validate_cursor : CursorUpdate → Option Invalid
validate_cursor c = elim c.shape [
  | none ↦ none
  | some s ↦
      refuse_if
        (if ltb max_cursor_pixels (length s.rgba)
          then true
          else not (nat_beq (length s.rgba) (s.width * s.height * 4)))
        bad_cursor_shape
]

module _ {F : Type 0} where
  unfoldable pub validate : Msg F → Option Invalid
  unfolding validate_input validate_clipboard validate_file validate_cursor
  validate (video v) = refuse_if (ltb max_frame (length v.bytes)) video_too_large
  validate (input_at seq ev) = validate_input ev
  validate (clipboard c) = validate_clipboard c
  validate (chat id text ts) = refuse_if (ltb 8192 (length text)) chat_too_long
  validate (file m) = validate_file m
  validate (cursor c) = validate_cursor c
  validate (displays_changed ds active) = refuse_if (ltb 32 (length ds)) too_many_displays
  validate (accepted p ds active name) = refuse_if (ltb 32 (length ds)) too_many_displays
  validate m = none
