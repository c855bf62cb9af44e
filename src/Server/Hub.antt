-- ===== src/Server/Hub.antt =====
-- server/src/hub.rs: the hub's methods, but for `connect` and `relay_route` of the child modules.
-- A method takes the time that it would read from the clock.
pub mod Connect
pub mod Relay
pub mod Inv
pub mod Preserve
pub mod Sessions
pub mod Access
pub mod Run
mod Tests
use remote_x.Prelude.{
  ℕ, ◌-◌, Bool, true, false, ◌&&◌, ◌||◌, not, List, [], ◌∷◌, ◌++◌, map, Option, none, some, ltb,
  if◌then◌else◌, nat_beq,
}
use remote_x.Prelude.Eq.{◌==◌, nat_eq}
use remote_x.Common.Text.{Text, text_eq}
use remote_x.Map
use remote_x.Security.Limiter
use remote_x.Server.State.{
  Conn, Mode, pending, relayed, direct, Session, Limiters, Inner, Config, Hub, Ended, fetch_add,
  seconds, new_limiters, is_some, mode_beq, outboxes, one, sweep_limiters,
}

module _ {F : Type 0} where
  abbrev pub with_inner : Hub F → Inner F → Hub F
  with_inner h g = record h { inner = g }

  abbrev pub with_lim : Hub F → Limiters → Hub F
  with_lim h l = record h { inner = record h.inner { lim = l } }

  unfoldable pub new : Config → Hub F
  new cfg = record {
    cfg = cfg;
    metrics = record {
      relay_bytes = 0;
      relay_bps = 0;
      sessions_total = 0;
      connects_rejected = 0;
      auth_failures = 0;
      errors = 0;
    };
    next_conn = 1;
    inner = record {
      devices = Map.empty;
      sessions = Map.empty;
      in_session = Map.empty;
      lim = new_limiters;
    };
  }

  unfoldable pub next_conn_id : Hub F → ℕ × Hub F
  next_conn_id h = (h.next_conn, record h { next_conn = fetch_add h.next_conn 1 })

  -- A connection counts a message that it cannot read.
  unfoldable pub count_error : Hub F → Hub F
  count_error h = record h { metrics = record h.metrics { errors = fetch_add h.metrics.errors 1 } }

  -- ---- rate limiting

  unfoldable pub ip_banned_for_auth : ℕ → ℕ → Hub F → Bool × Hub F
  ip_banned_for_auth ip now h =
      let (r, l) = Limiter.locked ip now h.lim.auth_fail_ip in
      (is_some r, with_lim h (record h.lim { auth_fail_ip = l }))

  unfoldable pub record_auth_failure : ℕ → ℕ → Hub F → Bool × Hub F
  record_auth_failure ip now h =
      let (b, l) = Limiter.record_failure ip now h.lim.auth_fail_ip in
      (
        b,
        record h {
          metrics = record h.metrics { auth_failures = fetch_add h.metrics.auth_failures 1 };
          inner = record h.inner { lim = record h.lim { auth_fail_ip = l } };
        },
      )

  unfoldable pub allow_register : ℕ → ℕ → Hub F → Bool × Hub F
  allow_register ip now h =
      let (r, l) = Limiter.locked ip now h.lim.register_ip in
      if is_some r
      then (false, with_lim h (record h.lim { register_ip = l }))
      else (true, with_lim h (record h.lim { register_ip = (Limiter.record_failure ip now l).1 }))

  unfoldable pub admin_locked : ℕ → ℕ → Hub F → Bool × Hub F
  admin_locked ip now h =
      let (r, l) = Limiter.locked ip now h.lim.admin_fail_ip in
      (is_some r, with_lim h (record h.lim { admin_fail_ip = l }))

  unfoldable pub admin_failure : ℕ → ℕ → Hub F → Hub F
  admin_failure ip now h =
      with_lim h
        (record h.lim { admin_fail_ip = (Limiter.record_failure ip now h.lim.admin_fail_ip).1 })

  -- ---- presence

  -- The first component is the handle of the connection that is kicked.
  unfoldable pub attach : Text → Conn → Hub F → Option ℕ × Hub F
  attach id conn h = (
    elim (Map.lookup id h.devices) [ none ↦ none | some old ↦ some old.kick ],
    with_inner h (record h.inner { devices = Map.insert id conn h.devices }),
  )

  unfoldable pub update_incoming : Text → ℕ → Bool → Hub F → Hub F
  update_incoming id conn_id enabled h = elim (Map.lookup id h.devices) [
    | none ↦ h
    | some c ↦
        if nat_beq c.conn_id conn_id
        then with_inner h (record h.inner {
          devices = Map.insert id (record c { incoming_enabled = enabled }) h.devices;
        })
        else h
  ]

  unfoldable pub presence : List Text → Hub F → List (Text × Bool)
  presence ids h =
      map (λ i. (i, elim (Map.lookup i h.devices) [ none ↦ false | some c ↦ c.incoming_enabled ]))
        ids

  -- ---- sessions

  unfoldable pub end_locked : ℕ → Inner F → Option Ended × Inner F
  end_locked sid g = elim (Map.lookup sid g.sessions) [
    | none ↦ (none, g)
    | some s ↦ (
      some (record {
        session = sid;
        viewer = s.viewer;
        host = s.host;
        mode = s.mode;
        bytes = s.bytes;
        notify = outboxes g.devices (s.viewer ∷ s.host ∷ []);
      }),
      record g {
        sessions = Map.remove sid g.sessions;
        in_session = Map.remove s.host (Map.remove s.viewer g.in_session);
      },
    )
  ]

  drop_device : Text → Inner F → List Ended × Inner F
  drop_device id g = elim (Map.lookup id g.in_session) [
    | none ↦ ([], g)
    | some sid ↦ let (e, g') = end_locked sid g in (one e, g')
  ]

  -- Removes the device, if this connection still owns its slot, and ends its session.
  unfoldable pub detach : Text → ℕ → Hub F → List Ended × Hub F
  unfolding drop_device
  detach id conn_id h = elim (Map.lookup id h.devices) [
    | none ↦ ([], h)
    | some c ↦
        if nat_beq c.conn_id conn_id
        then (let (ended, g) =
              drop_device id (record h.inner { devices = Map.remove id h.devices }) in
            (ended, with_inner h g))
        else ([], h)
  ]

  unfoldable pub set_mode : ℕ → Text → Bool → ℕ → Hub F → Hub F
  set_mode session from is_direct now h = elim (Map.lookup session h.sessions) [
    | none ↦ h
    | some s ↦
        if s.viewer == from && mode_beq s.mode pending
        then with_inner h (record h.inner {
          sessions =
              Map.insert session
                (record s { mode = if is_direct then direct else relayed; last_activity = now })
                h.sessions;
        })
        else h
  ]

  unfoldable pub end_by : ℕ → Text → Hub F → Option Ended × Hub F
  end_by session by h = elim (Map.lookup session h.sessions) [
    | none ↦ (none, h)
    | some s ↦
        if not (s.viewer == by) && not (s.host == by)
        then (none, h)
        else (let (e, g) = end_locked session h.inner in (e, with_inner h g))
  ]

  -- The viewer whose password failed, and whether that banned it or its address.
  unfoldable pub report_password_failure : ℕ → Text → ℕ → Hub F → Option (Text × Bool) × Hub F
  report_password_failure session host now h = elim (Map.lookup session h.sessions) [
    | none ↦ (none, h)
    | some s ↦
        if not (s.host == host)
        then (none, h)
        else (let (a, la) = Limiter.record_failure s.viewer now h.lim.pw_fail_viewer in
            let (b, lb) = Limiter.record_failure s.viewer_ip now h.lim.pw_fail_ip in
            (
              some (s.viewer, a || b),
              with_lim h (record h.lim { pw_fail_viewer = la; pw_fail_ip = lb }),
            ))
  ]

  -- A session that was never set up, or that relays and has fallen silent.
  unfoldable pub is_stale : ℕ → Session F → Bool
  is_stale now s = elim s.mode [
    | pending ↦ ltb (seconds 60) (now - s.created)
    | relayed ↦ ltb (seconds 120) (now - s.last_activity)
    | direct ↦ false
  ]

  end_all : List ℕ → Inner F → List Ended × Inner F
  end_all [] g = ([], g)
  end_all (sid ∷ sids) g =
      let (e, g1) = end_locked sid g in let (es, g2) = end_all sids g1 in (one e ++ es, g2)

  unfoldable pub sweep : ℕ → Hub F → List Ended × Hub F
  unfolding end_all
  sweep now h =
      let (ended, g) = end_all (Map.keys_where (λ _ s. is_stale now s) h.sessions) h.inner in
      (ended, with_inner h (record g { lim = sweep_limiters now g.lim }))
