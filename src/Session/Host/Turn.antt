-- ===== src/Session/Host/Turn.antt =====
-- crates/session/src/host.rs: the loop of the host's side of a session, over the file manager, the
-- clipboard, the controller of the video budget and the governor of bulk data. A turn has what
-- happened and when, and gives the new state and what the session does besides, in order. The grant
-- of elevated control is an argument: whether `begin` succeeds.
use remote_x.Prelude.{
  ℕ, ◌+◌, ◌-◌, ◌%◌, ◌^◌, Bool, true, false, ◌&&◌, ◌||◌, not, List, [], ◌∷◌, ◌++◌, map, Option, none,
  some, ltb, nat_beq, if◌then◌else◌, get_elem?, length,
}
use remote_x.Prelude.Eq.{Eq}
use remote_x.Float.{Float}
use remote_x.Common.Text.{Text}
use remote_x.Common.Event.{DisplayInfo}
use remote_x.Common.Peer.{
  Permissions, intersect, Msg, QualitySettings, permissions_changed, displays_changed, stats,
  select_display, set_quality, request_keyframe, clipboard, file, chat, ping, pong, bye,
}
use remote_x.Input.Clipboard.{Backend, ClipboardSync, poll_local, apply_remote}
use remote_x.Session.Adapt
use remote_x.Session.Adapt.{Adapter, Sample, Target}
use remote_x.Session.Bulk
use remote_x.Session.Bulk.{BulkGovernor}
use remote_x.Session.Transfer.State
use remote_x.Files.Transfer.{Disk}
use remote_x.Session.Transfer.State.{FilePolicy, FileManager}
use remote_x.Session.Transfer.Incoming.{World}
use remote_x.Session.Transfer.Messages.{on_msg}
use remote_x.Session.Transfer.Commands.{respond, set_allowed}
use remote_x.Session.Host.State.{
  EndReason, peer_closed, connection_lost, was_kicked, HostCmd, set_permissions, says, kick,
  approve_file, select, quality, keyframe, target, pause, elevated, VideoEvent, measured,
  found_displays, has_failed, Effect, sends, controls, shares_permissions, shares_active,
  shares_displays, shares_elevated, releases_all, transfers, shows_permissions, shows_chat,
  caps_bulk, HostState, Counters, Happening, receives, queue_ended, commands, video_says, clip_tick,
  adapt_tick, probe_tick, ping_tick, closed,
}

abbrev pub same : Bool → Bool → Bool
same a b = if a then b else not b

unfoldable pub perms_eq : Permissions → Permissions → Bool
perms_eq p q =
    same p.view q.view
    && same p.mouse q.mouse
    && same p.keyboard q.keyboard
    && same p.clipboard q.clipboard
    && same p.files q.files
    && same p.elevated q.elevated

-- The place of the first display that is the primary one.
unfoldable pub find_primary : List DisplayInfo → Option ℕ
find_primary [] = none
find_primary (d ∷ ds) =
    let rest = find_primary ds in
    if d.primary then some 0 else elim rest [ none ↦ none | some i ↦ some (i + 1) ]

unfoldable pub primary_display : List DisplayInfo → ℕ
unfolding find_primary
primary_display displays = elim (find_primary displays) [ none ↦ 0 | some i ↦ i ]

module _ (single double : Float) {B : Type 0} {D : Type 0} ⦃e : Eq D⦄ (backend : Backend B)
    (sha256 : List ℕ → D) (utf8 : Text → List ℕ) (w : World) where
  open single use {F}

  abbrev pub Host : Type 0
  Host = HostState F B D

  -- Why the loop ends, if it does, the state, and the effects.
  abbrev pub Turn : Type 0
  Turn = Option EndReason × Host × List (Effect F)

  unfoldable pub adapter_for : QualitySettings → ℕ → ℕ → List DisplayInfo → Option (Adapter F)
  adapter_for q i now displays = elim (get_elem? displays i) [
    | none ↦ none
    | some d ↦ some (Adapt.new single double q d.width d.height now)
  ]

  abbrev pub file_effects : List State.Out → List (Effect F)
  file_effects outs = map transfers outs

  -- A message of the peer; `none` where the queue of downloads did not end within the fuel.
  unfoldable pub on_message : ℕ → Msg F → ℕ → ℕ → Host → Option Turn
  unfolding adapter_for
  on_message fuel (select_display i) now now_ms s =
      if s.perms.view && ltb i (length s.displays)
      then some (
        none,
        record s { active = i; adapter = adapter_for s.quality i now s.displays },
        shares_active i ∷ controls (select i) ∷ [],
      )
      else some (none, s, [])
  on_message fuel (set_quality q) now now_ms s =
      if s.perms.view
      then some (
        none,
        record s { quality = q; adapter = adapter_for q s.active now s.displays },
        controls (quality q) ∷ [],
      )
      else some (none, s, [])
  on_message fuel request_keyframe now now_ms s =
      some (none, s, if s.perms.view then controls keyframe ∷ [] else [])
  on_message fuel (clipboard p) now now_ms s =
      if s.perms.clipboard
      then (elim s.board as (λ x. Option Turn) [
        | none ↦ some (none, s, [])
        | some c ↦
            some (none, record s { board = some (apply_remote backend sha256 utf8 p c).1 }, [])
      ])
      else some (none, s, [])
  on_message fuel (file m) now now_ms s = elim (on_msg w fuel m now s.files) as (λ x. Option Turn) [
    | none ↦ none
    | some r ↦ some (none, record s { files = r.0 }, file_effects r.1)
  ]
  on_message fuel (chat id text ts) now now_ms s = some (none, s, shows_chat id text ts false ∷ [])
  on_message fuel (ping t) now now_ms s = some (none, s, sends (pong t) ∷ [])
  on_message fuel (pong t) now now_ms s =
      let rtt = single.of_ℕ (now_ms - t) in
      let g = Bulk.update single double rtt s.governor in
      some (none, record s { rtt_ms = rtt; governor = g }, caps_bulk g.rate ∷ [])
  on_message fuel bye now now_ms s = some (some peer_closed, s, [])
  on_message fuel m now now_ms s = some (none, s, [])

  -- Elevated control begins or ends with the new permissions; whether it begins is `begins`.
  unfoldable pub settle_elevated : Bool → Permissions → Host → Permissions × Host × List (Effect F)
  settle_elevated begins p s =
      if p.elevated && not s.perms.elevated
      then (if begins
          then (p, record s { guard = true }, shares_elevated true ∷ controls (elevated true) ∷ [])
          else (record p { elevated = false }, s, []))
      else if not p.elevated && s.perms.elevated
      then (p, record s { guard = false }, shares_elevated false ∷ controls (elevated false) ∷ [])
      else (p, s, [])

  unfoldable pub lost_input : Permissions → Permissions → Bool
  lost_input old p = (old.mouse && not p.mouse) || (old.keyboard && not p.keyboard)

  unfoldable pub apply_permissions : Permissions → Host → Host × List (Effect F)
  unfolding perms_eq lost_input
  apply_permissions p s =
      if perms_eq p s.perms
      then (s, [])
      else (let (files, outs) = set_allowed p.files s.files in
          (
            record s { files = files; perms = p },
            (shares_permissions p ∷ [])
                ++ (if lost_input s.perms p then releases_all ∷ [] else [])
                ++ (if same p.view s.perms.view then [] else controls (pause (not p.view)) ∷ [])
                ++ file_effects outs
                ++ (sends (permissions_changed p) ∷ shows_permissions p ∷ []),
          ))

  unfoldable pub on_set_permissions : Bool → Permissions → Host → Turn
  unfolding settle_elevated apply_permissions
  on_set_permissions begins p s =
      let (p', s1, elevation) = settle_elevated begins (intersect p s.max_perms) s in
      let (s2, effects) = apply_permissions p' s1 in (none, s2, elevation ++ effects)

  unfoldable pub on_command : Bool → HostCmd → ℕ → ℕ → Host → Turn
  unfolding on_set_permissions
  on_command begins (set_permissions p) now now_ms s = on_set_permissions begins p s
  on_command begins (says text) now now_ms s =
      (none, s, sends (chat now_ms text now_ms) ∷ shows_chat now_ms text now_ms true ∷ [])
  on_command begins (approve_file id agrees) now now_ms s =
      let (files, outs) = respond w id agrees now s.files in
      (none, record s { files = files }, file_effects outs)
  on_command begins kick now now_ms s = (some was_kicked, s, sends bye ∷ [])

  unfoldable pub on_video : Counters F → VideoEvent F → Host → Turn
  on_video c (measured st) s = (
    none,
    s,
    sends (
          stats (record st {
            input_queue_us = c.input_queue_us;
            input_apply_us = c.input_apply_us;
            stale_moves_dropped = c.stale_moves;
          }))
        ∷ [],
  )
  on_video c (found_displays list act) s = (
    none,
    record s { displays = list; active = act },
    shares_displays list act ∷ sends (displays_changed list act) ∷ [],
  )
  on_video c has_failed s = (some connection_lost, s, [])

  -- Images share the bulk lane; either way the content is sent.
  unfoldable pub on_clip_tick : Host → Turn
  on_clip_tick s =
      if s.perms.clipboard
      then (elim s.board as (λ x. Turn) [
        | none ↦ (none, s, [])
        | some c ↦
            let (found, c') = poll_local backend sha256 utf8 c in
            (
              none,
              record s { board = some c' },
              elim found [ none ↦ [] | some p ↦ sends (clipboard p) ∷ [] ],
            )
      ])
      else (none, s, [])

  -- The service can end elevated control on its own; then it does not come back.
  unfoldable pub drop_elevated : Counters F → Host → Host × List (Effect F)
  drop_elevated c s =
      if s.perms.elevated && c.elevated_lost
      then (let perms = record s.perms { elevated = false } in
          (
            record s {
              guard = false;
              perms = perms;
              max_perms = record s.max_perms { elevated = false };
            },
            controls (elevated false)
                ∷ sends (permissions_changed perms)
                ∷ shows_permissions perms
                ∷ [],
          ))
      else (s, [])

  unfoldable pub adapt : Counters F → ℕ → Host → Host × List (Effect F)
  adapt c now s =
      let sample : Sample F = record {
        rtt_ms = s.rtt_ms;
        send_delay_ms = c.send_delay_ms;
        dropped = (c.video_dropped - s.last_dropped) % 2 ^ 32;
      } in
      let s' = record s { last_dropped = c.video_dropped } in
      elim s.adapter as (λ x. Host × List (Effect F)) [
        | none ↦ (s', [])
        | some a ↦
            let (t, a') = Adapt.update single double sample now a in
            (
              record s' { adapter = some a' },
              elim t [ none ↦ [] | some t' ↦ controls (target t') ∷ [] ],
            )
      ]

  unfoldable pub on_adapt_tick : Counters F → ℕ → Host → Turn
  unfolding drop_elevated adapt
  on_adapt_tick c now s =
      let (s1, dropped) = drop_elevated c s in
      let (s2, adapted) = adapt c now s1 in (none, s2, dropped ++ adapted)

  -- One turn of the loop.
  unfoldable pub turn : ℕ → Happening F → ℕ → ℕ → Host → Option Turn
  unfolding on_message on_command on_video on_clip_tick on_adapt_tick
  turn fuel (receives m) now now_ms s = on_message fuel m now now_ms (record s { last_rx = now })
  turn fuel queue_ended now now_ms s = some (some connection_lost, s, [])
  turn fuel (commands begins c) now now_ms s = some (on_command begins c now now_ms s)
  turn fuel (video_says c v) now now_ms s = some (on_video c v s)
  turn fuel clip_tick now now_ms s = some (on_clip_tick s)
  turn fuel (adapt_tick c) now now_ms s = some (on_adapt_tick c now s)
  turn fuel (probe_tick c) now now_ms s =
      if nat_beq c.bulk_bytes_sent s.last_bulk
      then some (none, s, [])
      else some (none, record s { last_bulk = c.bulk_bytes_sent }, sends (ping now_ms) ∷ [])
  turn fuel ping_tick now now_ms s = some (
    if ltb 15_000_000_000 (now - s.last_rx) then some connection_lost else none,
    s,
    sends (ping now_ms) ∷ [],
  )
  turn fuel closed now now_ms s = some (some connection_lost, s, [])

  -- The state at the beginning: elevated control is left out where it cannot begin.
  unfoldable pub start :
      Permissions
      → Bool
      → QualitySettings
      → List DisplayInfo
      → FilePolicy
      → Disk
      → Option (ClipboardSync B D)
      → ℕ
      → Host
  unfolding adapter_for primary_display
  start granted begins q displays policy disk board now =
      let perms =
        if granted.elevated && not begins then record granted { elevated = false } else granted in
      let active = primary_display displays in
      record {
        perms = perms;
        max_perms = perms;
        displays = displays;
        active = active;
        quality = q;
        adapter = adapter_for q active now displays;
        files = State.new policy perms.files disk;
        board = board;
        governor = Bulk.new single double;
        rtt_ms = single.lit 0 0;
        last_rx = now;
        last_bulk = 0;
        last_dropped = 0;
        guard = perms.elevated;
      }

  -- The loop over what happens: the state when it ends, or when nothing more has happened; `none`
  -- where the queue of downloads did not end within the fuel.
  unfoldable pub run : ℕ → List (Happening F × ℕ × ℕ) → Host → Option Host
  unfolding turn
  run fuel [] s = some s
  run fuel ((h, now, now_ms) ∷ hs) s = elim (turn fuel h now now_ms s) as (λ x. Option Host) [
    | none ↦ none
    | some t ↦ elim t.0 as (λ x. Option Host) [ none ↦ run fuel hs t.1 | some why ↦ some t.1 ]
  ]
