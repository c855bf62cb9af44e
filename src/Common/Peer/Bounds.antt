-- ===== src/Common/Peer/Bounds.antt =====
-- What is granted, and what a message that passed the checks can cost.
use remote_x.Prelude.{ℕ, ◌*◌, ◌≡◌, ◌≤◌, Bool, true, false, ◌&&◌, none, some, arith, length}
use remote_x.Common.Text.{length-le-byte_len}
use remote_x.Common.Event.{InputEvent}
use remote_x.Common.Peer

-- One set of permissions allows no more than another.
pub record IsWithin (p q : Peer.Permissions) : Type 0 where
  pub view : p.view ≡ true → q.view ≡ true
  pub mouse : p.mouse ≡ true → q.mouse ≡ true
  pub keyboard : p.keyboard ≡ true → q.keyboard ≡ true
  pub clipboard : p.clipboard ≡ true → q.clipboard ≡ true
  pub files : p.files ≡ true → q.files ≡ true
  pub elevated : p.elevated ≡ true → q.elevated ≡ true

and-first : (a b : Bool) → (a && b) ≡ true → a ≡ true
and-first a b h = ground arith

and-second : (a b : Bool) → (a && b) ≡ true → b ≡ true
and-second a b h = ground arith

both-and : (a b : Bool) → a ≡ true → b ≡ true → (a && b) ≡ true
both-and a b h k = ground (arith, h, k)

-- The intersection allows no more than either side, and all that both allow: what is granted never
-- exceeds what was requested, and nothing that was both requested and granted is lost.
pub intersect-IsWithin :
    (p q : Peer.Permissions)
    → IsWithin (Peer.intersect p q) p
      × IsWithin (Peer.intersect p q) q
      × ((r : Peer.Permissions) → IsWithin r p → IsWithin r q → IsWithin r (Peer.intersect p q))
unfolding Peer.intersect
intersect-IsWithin p q = (
  record {
    view = and-first p.view q.view;
    mouse = and-first p.mouse q.mouse;
    keyboard = and-first p.keyboard q.keyboard;
    clipboard = and-first p.clipboard q.clipboard;
    files = and-first p.files q.files;
    elevated = and-first p.elevated q.elevated;
  },
  record {
    view = and-second p.view q.view;
    mouse = and-second p.mouse q.mouse;
    keyboard = and-second p.keyboard q.keyboard;
    clipboard = and-second p.clipboard q.clipboard;
    files = and-second p.files q.files;
    elevated = and-second p.elevated q.elevated;
  },
  λ r a b. record {
    view = λ h. both-and p.view q.view (a.view h) (b.view h);
    mouse = λ h. both-and p.mouse q.mouse (a.mouse h) (b.mouse h);
    keyboard = λ h. both-and p.keyboard q.keyboard (a.keyboard h) (b.keyboard h);
    clipboard = λ h. both-and p.clipboard q.clipboard (a.clipboard h) (b.clipboard h);
    files = λ h. both-and p.files q.files (a.files h) (b.files h);
    elevated = λ h. both-and p.elevated q.elevated (a.elevated h) (b.elevated h);
  },
)

-- The entries of the payload that a message carries for the receiver to keep or to show.
unfoldable pub payload : {F : Type 0} → Peer.Msg F → ℕ
payload (Peer.video v) = length v.bytes
payload (Peer.input_at seq (InputEvent.text s)) = length s
payload (Peer.clipboard (Peer.clip_text s)) = length s
payload (Peer.clipboard (Peer.clip_image b)) = length b
payload (Peer.chat id text ts) = length text
payload (Peer.file (Peer.chunk id offset b)) = length b
payload (Peer.file (Peer.offer id name size)) = length name
payload (Peer.file (Peer.fetch id path)) = length path
payload (Peer.file (Peer.list_dir path)) = length path
payload (Peer.displays_changed ds active) = length ds
payload (Peer.accepted p ds active name) = length ds
payload m = 0

-- The pixels of a cursor's new shape are as many as its width and height say.
unfoldable pub HasPixels : {F : Type 0} → Peer.Msg F → Type 0
HasPixels (Peer.cursor c) =
    (s : Peer.CursorShape)
    → c.shape ≡ some s
    → (length s.rgba ≡ s.width * s.height * 4) × (length s.rgba ≤ Peer.max_cursor_pixels)
HasPixels m = Unit

cursor-HasPixels :
    (c : Peer.CursorUpdate) (s : Peer.CursorShape)
    → Peer.validate_cursor c ≡ none
    → c.shape ≡ some s
    → (length s.rgba ≡ s.width * s.height * 4) × (length s.rgba ≤ Peer.max_cursor_pixels)
unfolding Peer.validate_cursor
cursor-HasPixels c s h e = ground (arith, h, e)

-- A message that passes the checks carries a frame, a text, an image, a chunk, a path or a list
-- of displays with at most 2^24 entries, and a cursor shape in it has exactly the pixels that
-- its width and height say, within the limit for cursors.
pub validate-HasPixels :
    {F : Type 0} (m : Peer.Msg F)
    → Peer.validate m ≡ none
    → (payload m ≤ 16 * 1024 * 1024) × HasPixels m
unfolding Peer.validate Peer.validate_input Peer.validate_clipboard Peer.validate_file payload
    HasPixels
validate-HasPixels (Peer.video v) h = (ground arith, tt)
validate-HasPixels (Peer.input_at seq (InputEvent.text s)) h = (ground arith, tt)
validate-HasPixels (Peer.input_at seq (InputEvent.mouse_move x y)) h = (omega arith, tt)
validate-HasPixels (Peer.input_at seq (InputEvent.mouse_button b d)) h = (omega arith, tt)
validate-HasPixels (Peer.input_at seq (InputEvent.wheel x y)) h = (omega arith, tt)
validate-HasPixels (Peer.input_at seq (InputEvent.key a b c)) h = (omega arith, tt)
validate-HasPixels (Peer.input_at seq InputEvent.release_all) h = (omega arith, tt)
validate-HasPixels (Peer.clipboard (Peer.clip_text s)) h =
    (ground (arith, length-le-byte_len s), tt)
validate-HasPixels (Peer.clipboard (Peer.clip_image b)) h = (ground arith, tt)
validate-HasPixels (Peer.chat id text ts) h = (ground arith, tt)
validate-HasPixels (Peer.file (Peer.chunk id offset b)) h = (ground arith, tt)
validate-HasPixels (Peer.file (Peer.offer id name size)) h =
    (ground (arith, length-le-byte_len name), tt)
validate-HasPixels (Peer.file (Peer.fetch id path)) h =
    (ground (arith, length-le-byte_len path), tt)
validate-HasPixels (Peer.file (Peer.list_dir path)) h =
    (ground (arith, length-le-byte_len path), tt)
validate-HasPixels (Peer.file (Peer.accept i o)) h = (omega arith, tt)
validate-HasPixels (Peer.file (Peer.reject_file i o)) h = (omega arith, tt)
validate-HasPixels (Peer.file (Peer.done i o)) h = (omega arith, tt)
validate-HasPixels (Peer.file (Peer.verified i o)) h = (omega arith, tt)
validate-HasPixels (Peer.file (Peer.cancel i)) h = (omega arith, tt)
validate-HasPixels (Peer.file (Peer.dir_listing p es e)) h = (omega arith, tt)
validate-HasPixels (Peer.displays_changed ds active) h = (ground arith, tt)
validate-HasPixels (Peer.accepted p ds active name) h = (ground arith, tt)
validate-HasPixels (Peer.cursor c) h = (omega arith, λ s e. cursor-HasPixels c s h e)
validate-HasPixels (Peer.rejected r) h = (omega arith, tt)
validate-HasPixels (Peer.permissions_changed p) h = (omega arith, tt)
validate-HasPixels (Peer.stats s) h = (omega arith, tt)
validate-HasPixels (Peer.select_display n) h = (omega arith, tt)
validate-HasPixels (Peer.set_quality q) h = (omega arith, tt)
validate-HasPixels Peer.request_keyframe h = (omega arith, tt)
validate-HasPixels (Peer.ping t) h = (omega arith, tt)
validate-HasPixels (Peer.pong t) h = (omega arith, tt)
validate-HasPixels Peer.bye h = (omega arith, tt)
validate-HasPixels (Peer.input_ack a b c) h = (omega arith, tt)

pub IsWithin-refl : (p : Peer.Permissions) → IsWithin p p
IsWithin-refl p = record {
  view = λ x. x;
  mouse = λ x. x;
  keyboard = λ x. x;
  clipboard = λ x. x;
  files = λ x. x;
  elevated = λ x. x;
}

-- Without elevated control less is allowed.
pub lowered-IsWithin :
    (p q : Peer.Permissions) → IsWithin p q → IsWithin (record p { elevated = false }) q
lowered-IsWithin p q h = record {
  view = h.view;
  mouse = h.mouse;
  keyboard = h.keyboard;
  clipboard = h.clipboard;
  files = h.files;
  elevated = λ x. ground (arith, x);
}

pub lowered_both :
    (p q : Peer.Permissions)
    → IsWithin p q
    → IsWithin (record p { elevated = false }) (record q { elevated = false })
lowered_both p q h = record {
  view = h.view;
  mouse = h.mouse;
  keyboard = h.keyboard;
  clipboard = h.clipboard;
  files = h.files;
  elevated = λ x. x;
}
