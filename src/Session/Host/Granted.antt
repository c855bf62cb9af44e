-- ===== src/Session/Host/Granted.antt =====
-- crates/session/src/host.rs: the permissions of a session over its whole course.
use remote_x.Prelude.{
  ℕ, ◌≡◌, refl, sym, ◌∙◌, subst, Bool, true, ◌&&◌, not, List, [], ◌∷◌, Option, none, some, if_both,
  option_both, arith, nat_beq,
}
use remote_x.Prelude.Eq.{Eq}
use remote_x.Float.{Float}
use remote_x.Common.Text.{Text}
use remote_x.Common.Peer.{Permissions, intersect, QualitySettings}
use remote_x.Common.Peer.Bounds.{
  IsWithin, IsWithin-refl, lowered-IsWithin, lowered_both, intersect-IsWithin,
}
use remote_x.Session.Host.Kept.{
  Core, core, KeepsCore, on_message-KeepsCore, adapt-core, on_clip_tick-core, on_video-core,
}
use remote_x.Input.Clipboard.{Backend, ClipboardSync}
use remote_x.Session.Transfer.State.{FilePolicy}
use remote_x.Files.Transfer.{Disk}
use remote_x.Common.Event.{DisplayInfo}
use remote_x.Session.Transfer.Incoming.{World}
use remote_x.Session.Host.State.{
  HostCmd, set_permissions, says, kick, approve_file, Effect, HostState, Counters, Happening,
  receives, queue_ended, commands, video_says, clip_tick, adapt_tick, probe_tick, ping_tick, closed,
}
use remote_x.Session.Host.Turn.{
  perms_eq, Turn, on_message, settle_elevated, apply_permissions, on_set_permissions, on_command,
  on_video, on_clip_tick, drop_elevated, adapt, on_adapt_tick, turn, start, run,
}

perms_eq-elevated : (p q : Permissions) → perms_eq p q ≡ true → q.elevated ≡ p.elevated
unfolding perms_eq
perms_eq-elevated p q h = ground (arith, h)

module _ (single double : Float) {B : Type 0} {D : Type 0} ⦃e : Eq D⦄ (backend : Backend B)
    (sha256 : List ℕ → D) (utf8 : Text → List ℕ) (w : World) (granted : Permissions) where
  open single use {F}

  -- What is allowed never exceeds what can be given back, nor that what was granted at the start, and
  -- the guard of elevated control is held just while it is allowed.
  unfoldable pub IsGranted : HostState F B D → Type 0
  IsGranted s =
      IsWithin s.perms s.max_perms × IsWithin s.max_perms granted × (s.guard ≡ s.perms.elevated)

  -- The permissions that are left to apply: within the most there can be, and the guard fits them.
  unfoldable IsReady : Permissions × HostState F B D × List (Effect F) → Type 0
  IsReady (p, s, effects) =
      IsWithin p s.max_perms
      × IsWithin s.perms s.max_perms
      × IsWithin s.max_perms granted
      × (s.guard ≡ p.elevated)

  settle_elevated-IsReady :
      (begins : Bool) (p : Permissions) (s : HostState F B D)
      → IsWithin p s.max_perms
      → IsGranted s
      → IsReady (settle_elevated single double backend sha256 utf8 w begins p s)
  unfolding settle_elevated IsReady IsGranted
  settle_elevated-IsReady begins p s h g =
      if_both IsReady (p.elevated && not s.perms.elevated)
        (λ x.
          if_both IsReady begins (λ y. (h, g.0, g.1, ground (arith, x)))
            (λ y. (lowered-IsWithin p s.max_perms h, g.0, g.1, ground (arith, x, g.2))))
        (λ x.
          if_both IsReady (not p.elevated && s.perms.elevated)
            (λ y. (h, g.0, g.1, ground (arith, y))) (λ y. (h, g.0, g.1, ground (arith, x, y, g.2))))

  apply_permissions-IsGranted :
      (p : Permissions) (s : HostState F B D)
      → IsReady (p, s, [])
      → IsGranted (apply_permissions single double backend sha256 utf8 w p s).0
  unfolding apply_permissions IsReady IsGranted
  apply_permissions-IsGranted p s r =
      if_both (λ (o : HostState F B D × List (Effect F)). IsGranted o.0) (perms_eq p s.perms)
        (λ x. (r.1, r.2, r.3 ∙ sym (perms_eq-elevated p s.perms x))) (λ x. (r.0, r.2, r.3))

  on_set_permissions-IsGranted :
      (begins : Bool) (p : Permissions) (s : HostState F B D)
      → IsGranted s
      → IsGranted (on_set_permissions single double backend sha256 utf8 w begins p s).1
  unfolding on_set_permissions IsReady
  on_set_permissions-IsGranted begins p s g =
      let r : Permissions × HostState F B D × List (Effect F) =
        settle_elevated single double backend sha256 utf8 w begins (intersect p s.max_perms) s in
      let ready : IsReady r =
        settle_elevated-IsReady begins (intersect p s.max_perms) s
          (intersect-IsWithin p s.max_perms).1 g in
      apply_permissions-IsGranted r.0 r.1 ready

  same_core-IsGranted : (s t : HostState F B D) → core t ≡ core s → IsGranted s → IsGranted t
  unfolding IsGranted
  same_core-IsGranted s t c g =
      subst (λ (k : Core). IsWithin k.0 k.1 × IsWithin k.1 granted × (k.2 ≡ k.0.elevated)) (sym c) g

  drop_elevated-IsGranted :
      (c : Counters F) (s : HostState F B D)
      → IsGranted s
      → IsGranted (drop_elevated single double backend sha256 utf8 w c s).0
  unfolding drop_elevated IsGranted
  drop_elevated-IsGranted c s g =
      if_both (λ (o : HostState F B D × List (Effect F)). IsGranted o.0)
        (s.perms.elevated && c.elevated_lost)
        (λ x.
          (lowered_both s.perms s.max_perms g.0, lowered-IsWithin s.max_perms granted g.1, refl))
        (λ x. g)

  on_command-IsGranted :
      (begins : Bool) (c : HostCmd) (now now_ms : ℕ) (s : HostState F B D)
      → IsGranted s
      → IsGranted (on_command single double backend sha256 utf8 w begins c now now_ms s).1
  unfolding on_command IsGranted
  on_command-IsGranted begins (set_permissions p) now now_ms s g =
      on_set_permissions-IsGranted begins p s g
  on_command-IsGranted begins (says text) now now_ms s g = g
  on_command-IsGranted begins (approve_file id agrees) now now_ms s g = g
  on_command-IsGranted begins kick now now_ms s g = g

  -- The invariant of the state that a turn leaves, if it ends.
  unfoldable pub LeavesGranted : Option (Turn single double backend sha256 utf8 w) → Type 0
  LeavesGranted none = Unit
  LeavesGranted (some t) = IsGranted t.1

  kept :
      (s : HostState F B D) (o : Option (Turn single double backend sha256 utf8 w))
      → IsGranted s
      → KeepsCore single double backend sha256 utf8 w s o
      → LeavesGranted o
  unfolding KeepsCore LeavesGranted
  kept s none g k = tt
  kept s (some t) g k = same_core-IsGranted s t.1 k g

  turn-IsGranted :
      (fuel : ℕ) (h : Happening F) (now now_ms : ℕ) (s : HostState F B D)
      → IsGranted s
      → LeavesGranted (turn single double backend sha256 utf8 w fuel h now now_ms s)
  unfolding turn LeavesGranted on_adapt_tick IsGranted
  turn-IsGranted fuel (receives m) now now_ms s g =
      kept (record s { last_rx = now })
        (on_message single double backend sha256 utf8 w fuel m now now_ms
          (record s { last_rx = now }))
        g
        (on_message-KeepsCore single double backend sha256 utf8 w fuel m now now_ms
          (record s { last_rx = now }))
  turn-IsGranted fuel queue_ended now now_ms s g = g
  turn-IsGranted fuel (commands begins c) now now_ms s g =
      on_command-IsGranted begins c now now_ms s g
  turn-IsGranted fuel (video_says c v) now now_ms s g =
      same_core-IsGranted s (on_video single double backend sha256 utf8 w c v s).1
        (on_video-core single double backend sha256 utf8 w c v s) g
  turn-IsGranted fuel clip_tick now now_ms s g =
      same_core-IsGranted s (on_clip_tick single double backend sha256 utf8 w s).1
        (on_clip_tick-core single double backend sha256 utf8 w s) g
  turn-IsGranted fuel (adapt_tick c) now now_ms s g =
      let s1 : HostState F B D = (drop_elevated single double backend sha256 utf8 w c s).0 in
      same_core-IsGranted s1 (adapt single double backend sha256 utf8 w c now s1).0
        (adapt-core single double backend sha256 utf8 w c now s1) (drop_elevated-IsGranted c s g)
  turn-IsGranted fuel (probe_tick c) now now_ms s g =
      if_both LeavesGranted (nat_beq c.bulk_bytes_sent s.last_bulk) (λ x. g) (λ x. g)
  turn-IsGranted fuel ping_tick now now_ms s g = g
  turn-IsGranted fuel closed now now_ms s g = g

  start-IsGranted :
      (begins : Bool) (q : QualitySettings) (displays : List DisplayInfo) (policy : FilePolicy)
      (disk : Disk) (board : Option (ClipboardSync B D)) (now : ℕ)
      → IsGranted (
          start single double backend sha256 utf8 w granted begins q displays policy disk board now)
  unfolding start IsGranted
  start-IsGranted begins q displays policy disk board now =
      if_both (λ (p : Permissions). IsWithin p p × IsWithin p granted × (p.elevated ≡ p.elevated))
        (granted.elevated && not begins)
        (λ x. (
          lowered_both granted granted (IsWithin-refl granted),
          lowered-IsWithin granted granted (IsWithin-refl granted),
          refl,
        ))
        (λ x. (IsWithin-refl granted, IsWithin-refl granted, refl))

  -- The invariant of the state that a run leaves, if it ends.
  unfoldable pub RunGranted : Option (HostState F B D) → Type 0
  RunGranted none = Unit
  RunGranted (some s) = IsGranted s

  run-IsGranted :
      (fuel : ℕ) (hs : List (Happening F × ℕ × ℕ)) (s : HostState F B D)
      → IsGranted s
      → RunGranted (run single double backend sha256 utf8 w fuel hs s)
  unfolding run RunGranted LeavesGranted
  run-IsGranted fuel [] s g = g
  run-IsGranted fuel ((h, now, now_ms) ∷ hs) s g =
      option_both RunGranted (turn single double backend sha256 utf8 w fuel h now now_ms s)
        (λ x. tt)
        (λ t x.
          let g' : IsGranted t.1 = subst LeavesGranted x (turn-IsGranted fuel h now now_ms s g) in
          option_both RunGranted t.0 (λ y. run-IsGranted fuel hs t.1 g') (λ why y. g'))

  -- Whatever the peer sends and the owner asks for in a session: what is allowed stays within what
  -- can be given back, and that within what was granted at the start, and the guard of elevated
  -- control is held just while elevated control is allowed.
  pub run-start-IsGranted :
      (fuel : ℕ) (hs : List (Happening F × ℕ × ℕ)) (begins : Bool) (q : QualitySettings)
      (displays : List DisplayInfo) (policy : FilePolicy) (disk : Disk)
      (board : Option (ClipboardSync B D)) (now : ℕ) (s : HostState F B D)
      → run single double backend sha256 utf8 w fuel hs (
          start single double backend sha256 utf8 w granted begins q displays policy disk board now)
        ≡ some s
      → IsGranted s
  unfolding RunGranted
  run-start-IsGranted fuel hs begins q displays policy disk board now s ends =
      subst RunGranted ends (
        run-IsGranted fuel hs
          (start single double backend sha256 utf8 w granted begins q displays policy disk board
            now)
          (start-IsGranted begins q displays policy disk board now))
