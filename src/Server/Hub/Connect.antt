-- ===== src/Server/Hub/Connect.antt =====
-- server/src/hub.rs: `Hub::connect`. The session id that the code draws is an argument.
pub mod Steps
pub mod Outcome
pub mod Success
use remote_x.Prelude.{
  ℕ, ◌+◌, ◌*◌, Bool, true, false, ◌||◌, not, List, [], Option, none, some, leb, nat_beq,
  if◌then◌else◌,
}
use remote_x.Prelude.Result.{Result, ok, err}
use remote_x.Prelude.Eq.{◌==◌, nat_eq}
use remote_x.Float.{Float}
use remote_x.Common.Text.{Text, text_eq}
use remote_x.Common.Ids.{parse}
use remote_x.Map
use remote_x.Security.Limiter
use remote_x.Server.State.{
  Conn, Session, pending, Hub, Ended, Started, ConnectFailure, offline, not_accepting, rate_limited,
  banned, busy, invalid_id, fetch_add, is_some,
}
use remote_x.Server.Hub.{with_inner, with_lim, end_locked}

module _ {F : Type 0} where
  abbrev pub reject : Hub F → ConnectFailure → Result Started ConnectFailure × Hub F
  reject h f = (
    err f,
    record h {
      metrics = record h.metrics { connects_rejected = fetch_add h.metrics.connects_rejected 1 };
    },
  )

  unfoldable pub record_enumeration : ℕ → ℕ → Hub F → Hub F
  record_enumeration ip now h =
      with_lim h
        (record h.lim { enumerate_ip = (Limiter.record_failure ip now h.lim.enumerate_ip).1 })

  unfoldable pub ban_by_enumeration : ℕ → ℕ → Hub F → Bool × Hub F
  ban_by_enumeration ip now h =
      let (r, l) = Limiter.locked ip now h.lim.enumerate_ip in
      (is_some r, with_lim h (record h.lim { enumerate_ip = l }))

  unfoldable pub ban_by_ip : ℕ → ℕ → Hub F → Bool × Hub F
  ban_by_ip ip now h =
      let (r, l) = Limiter.locked ip now h.lim.pw_fail_ip in
      let h' = with_lim h (record h.lim { pw_fail_ip = l }) in
      if is_some r then (true, h') else ban_by_enumeration ip now h'

  -- The three tests that `||` joins: one that succeeds leaves the later limiters untouched.
  unfoldable pub is_banned : Text → ℕ → ℕ → Hub F → Bool × Hub F
  is_banned viewer ip now h =
      let (r, l) = Limiter.locked viewer now h.lim.pw_fail_viewer in
      let h' = with_lim h (record h.lim { pw_fail_viewer = l }) in
      if is_some r then (true, h') else ban_by_ip ip now h'

  abbrev pub ask_source : Text → ℕ → Hub F → Hub F
  ask_source viewer now h =
      with_lim h (record h.lim { connect_src = (Limiter.locked viewer now h.lim.connect_src).1 })

  abbrev pub count_attempt : Text → ℕ → Hub F → Hub F
  count_attempt viewer now h =
      with_lim h
        (record h.lim { connect_src = (Limiter.record_failure viewer now h.lim.connect_src).1 })

  -- The rate limits that a request has to pass, and what they remember of it.
  unfoldable pub throttle : Text → ℕ → ℕ → Hub F → Option ConnectFailure × Hub F
  throttle viewer ip now h =
      let r = (Limiter.locked viewer now h.lim.connect_src).0 in
      let h1 = ask_source viewer now h in
      let (b, h3) = is_banned viewer ip now (count_attempt viewer now h1) in
      if is_some r then (some rate_limited, h1) else if b then (some banned, h3) else (none, h3)

  -- The device that `target` names, if it can be called.
  unfoldable pub find_target :
      Text → ℕ → Text → ℕ → Hub F → Result (Text × Conn) ConnectFailure × Hub F
  find_target viewer ip target now h = elim (parse target) [
    | none ↦ (err invalid_id, record_enumeration ip now h)
    | some target_id ↦
        if target_id == viewer
        then (err invalid_id, h)
        else (elim (Map.lookup target_id h.devices) [
          | none ↦ (err offline, record_enumeration ip now h)
          | some host ↦
              if not host.incoming_enabled
              then (err not_accepting, h)
              else (ok (target_id, host), h)
        ])
  ]

  -- A viewer that reconnects replaces its own previous session.
  unfoldable pub replace_own : Text → Hub F → Option Ended × Hub F
  replace_own viewer h = elim (Map.lookup viewer h.in_session) [
    | none ↦ (none, h)
    | some old ↦ elim (Map.lookup old h.sessions) [
      | none ↦ (none, h)
      | some s ↦
          if s.viewer == viewer
          then (let (e, g) = end_locked old h.inner in (e, with_inner h g))
          else (none, h)
    ]
  ]

module _ (fl : Float) where
  open fl use {F, lit, mul, of_ℕ}

  -- Bytes per second.
  abbrev pub relay_rate : Hub F → F
  relay_rate h = mul (of_ℕ h.cfg.max_relay_mbps_per_session) (lit 125000 0)

  abbrev pub fresh_session : Text → Text → ℕ → ℕ → Hub F → Session F
  fresh_session viewer host viewer_ip now h = record {
    viewer = viewer;
    host = host;
    viewer_ip = viewer_ip;
    created = now;
    last_activity = now;
    mode = pending;
    bytes = 0;
    bucket = record { tokens = mul (relay_rate h) (lit 25 2); last = now };
  }

  unfoldable pub open_session :
      Text
      → Conn
      → Text
      → Conn
      → ℕ
      → ℕ
      → Option Ended
      → Hub F
      → Result Started ConnectFailure × Hub F
  open_session viewer vc target_id host session now replaced h =
      if is_some (Map.lookup target_id h.in_session) || is_some (Map.lookup viewer h.in_session)
      then reject h busy
      else if leb h.cfg.max_sessions (Map.len h.sessions)
      then reject h busy
      else (
        ok (record {
          session = session;
          host_tx = host.tx;
          host_name = host.name;
          viewer_name = vc.name;
          same_network = nat_beq host.ip vc.ip;
          host_candidates = if nat_beq host.ip vc.ip then host.candidates else [];
          replaced = replaced;
        }),
        record h {
          metrics = record h.metrics { sessions_total = fetch_add h.metrics.sessions_total 1 };
          inner = record h.inner {
            sessions = Map.insert session (fresh_session viewer target_id vc.ip now h) h.sessions;
            in_session = Map.insert target_id session (Map.insert viewer session h.in_session);
          };
        },
      )

  connect_to :
      Text
      → Conn
      → ℕ
      → ℕ
      → Result (Text × Conn) ConnectFailure × Hub F
      → Result Started ConnectFailure × Hub F
  connect_to viewer vc session now (err f, h) = reject h f
  connect_to viewer vc session now (ok (target_id, host), h) =
      let (replaced, h') = replace_own viewer h in
      open_session viewer vc target_id host session now replaced h'

  connect_from :
      Text
      → Conn
      → Text
      → ℕ
      → ℕ
      → Option ConnectFailure × Hub F
      → Result Started ConnectFailure × Hub F
  unfolding connect_to
  connect_from viewer vc target session now (some f, h) = reject h f
  connect_from viewer vc target session now (none, h) =
      connect_to viewer vc session now (find_target viewer vc.ip target now h)

  unfoldable pub connect : Text → Text → ℕ → ℕ → Hub F → Result Started ConnectFailure × Hub F
  unfolding connect_from
  connect viewer target session now h = elim (Map.lookup viewer h.devices) [
    | none ↦ (err offline, h)
    | some vc ↦ connect_from viewer vc target session now (throttle viewer vc.ip now h)
  ]
