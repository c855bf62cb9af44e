-- ===== src/Session/Host/Kept.antt =====
-- crates/session/src/host.rs: which turns leave the permissions of a session alone.
use remote_x.Prelude.{
  ℕ, ◌≡◌, refl, Bool, ◌&&◌, List, Option, none, some, if_both, option_both, ltb, length,
}
use remote_x.Prelude.Eq.{Eq}
use remote_x.Float.{Float}
use remote_x.Common.Text.{Text}
use remote_x.Common.Peer.{
  Permissions, Msg, select_display, set_quality, request_keyframe, clipboard, file, chat, ping,
  pong, bye,
}
use remote_x.Input.Clipboard.{Backend}
use remote_x.Session.Transfer.Incoming.{World}
use remote_x.Session.Transfer.Messages.{on_msg}
use remote_x.Session.Host.State.{
  VideoEvent, measured, found_displays, has_failed, Effect, HostState, Counters,
}
use remote_x.Session.Host.Turn.{Turn, on_message, on_video, on_clip_tick, adapt}

-- What the invariant of the permissions is about.
abbrev pub Core : Type 0
Core = Permissions × Permissions × Bool

abbrev pub core : {F B D : Type 0} → HostState F B D → Core
core s = (s.perms, s.max_perms, s.guard)

module _ (single double : Float) {B : Type 0} {D : Type 0} ⦃e : Eq D⦄ (backend : Backend B)
    (sha256 : List ℕ → D) (utf8 : Text → List ℕ) (w : World) where
  open single use {F}

  -- A turn that the peer brings about leaves the permissions alone.
  unfoldable pub KeepsCore :
      HostState F B D → Option (Turn single double backend sha256 utf8 w) → Type 0
  KeepsCore s none = Unit
  KeepsCore s (some t) = core t.1 ≡ core s

  pub on_message-KeepsCore :
      (fuel : ℕ) (m : Msg F) (now now_ms : ℕ) (s : HostState F B D)
      → KeepsCore s (on_message single double backend sha256 utf8 w fuel m now now_ms s)
  unfolding on_message KeepsCore
  on_message-KeepsCore fuel (select_display i) now now_ms s =
      if_both (KeepsCore s) (s.perms.view && ltb i (length s.displays)) (λ x. refl) (λ x. refl)
  on_message-KeepsCore fuel (set_quality q) now now_ms s =
      if_both (KeepsCore s) s.perms.view (λ x. refl) (λ x. refl)
  on_message-KeepsCore fuel request_keyframe now now_ms s = refl
  on_message-KeepsCore fuel (clipboard p) now now_ms s =
      if_both (KeepsCore s) s.perms.clipboard
        (λ x. option_both (KeepsCore s) s.board (λ y. refl) (λ c y. refl)) (λ x. refl)
  on_message-KeepsCore fuel (file m) now now_ms s =
      option_both (KeepsCore s) (on_msg w fuel m now s.files) (λ y. tt) (λ r y. refl)
  on_message-KeepsCore fuel (chat id text ts) now now_ms s = refl
  on_message-KeepsCore fuel (ping t) now now_ms s = refl
  on_message-KeepsCore fuel (pong t) now now_ms s = refl
  on_message-KeepsCore fuel bye now now_ms s = refl
  on_message-KeepsCore fuel m now now_ms s = refl

  pub adapt-core :
      (c : Counters F) (now : ℕ) (s : HostState F B D)
      → core (adapt single double backend sha256 utf8 w c now s).0 ≡ core s
  unfolding adapt
  adapt-core c now s =
      option_both (λ (o : HostState F B D × List (Effect F)). core o.0 ≡ core s) s.adapter
        (λ x. refl) (λ a x. refl)

  pub on_clip_tick-core :
      (s : HostState F B D) → core (on_clip_tick single double backend sha256 utf8 w s).1 ≡ core s
  unfolding on_clip_tick
  on_clip_tick-core s =
      let P : Turn single double backend sha256 utf8 w → Type 0 = λ t. core t.1 ≡ core s in
      if_both P s.perms.clipboard (λ x. option_both P s.board (λ y. refl) (λ c y. refl)) (λ x. refl)

  pub on_video-core :
      (c : Counters F) (v : VideoEvent F) (s : HostState F B D)
      → core (on_video single double backend sha256 utf8 w c v s).1 ≡ core s
  unfolding on_video
  on_video-core c (measured st) s = refl
  on_video-core c (found_displays list act) s = refl
  on_video-core c has_failed s = refl
