-- ===== src/Server/Hub/Sessions.antt =====
-- How sessions end, and what the hub remembers of a failed password.
use remote_x.Prelude.{
  ℕ, ◌+◌, ◌<◌, ◌≡◌, refl, ap, ◌∙◌, none, some, List, [], ◌∷◌, ◌++◌, ◌⊎◌, inl, inr, arith,
  Bool-cases, true, Bool, Option, Has, Has-append, sym, subst, ◌≢◌, option_both, if◌then◌else◌,
  nat_beq, ◌&&◌,
}
use remote_x.Prelude.Result.{err}
use remote_x.Prelude.Eq.{nat_eq, ◌==◌, beq_refl}
use remote_x.Common.Text.{Text, text_eq, text_beq_iff}
use remote_x.Float.{Float}
use remote_x.Map
use remote_x.Map.Laws.{lookup-remove, lookup-insert, contains-keys_where, passes}
use remote_x.Security.Limiter
use remote_x.Security.Limiter.Lockout.{locked-record_failure}
use remote_x.Server.State.{
  one, Conn, Session, Inner, Hub, Ended, rate_limited, banned, pending, relayed, direct, is_some,
  mode_beq, outboxes,
}
use remote_x.Server.Hub.{
  end_locked, end_all, set_mode, end_by, sweep, is_stale, report_password_failure,
}
use remote_x.Server.Hub.Inv.{IsPartner, lookup-end_locked}
use remote_x.Server.Hub.Connect.{throttle, is_banned, ban_by_ip, ask_source, count_attempt, connect}

module _ {F : Type 0} where
  -- A participant who ends a session removes it, frees both devices, and gets a summary that tells
  -- whoever of the two is online; anybody else changes nothing.
  pub end_by-IsPartner :
      (session : ℕ) (by : Text) (h : Hub F) (s : Session F)
      → Map.lookup session h.sessions ≡ some s
      → (IsPartner by s
          → ((end_by session by h).0
              ≡ some (record {
                session = session;
                viewer = s.viewer;
                host = s.host;
                mode = s.mode;
                bytes = s.bytes;
                notify = outboxes h.devices (s.viewer ∷ s.host ∷ []);
              }))
            × (Map.lookup session (end_by session by h).1.sessions ≡ none)
            × (Map.lookup s.viewer (end_by session by h).1.in_session ≡ none)
            × (Map.lookup s.host (end_by session by h).1.in_session ≡ none))
        × (¬ IsPartner by s → end_by session by h ≡ (none, h))
  unfolding end_by end_locked
  end_by-IsPartner session by h s e = (
    λ p. (
      ground (arith, e, p, text_beq_iff s.viewer by, text_beq_iff s.host by),
      ground (
        arith,
        e,
        p,
        text_beq_iff s.viewer by,
        text_beq_iff s.host by,
        lookup-remove session session h.sessions,
      ),
      ground (
        arith,
        e,
        p,
        text_beq_iff s.viewer by,
        text_beq_iff s.host by,
        beq_refl s.viewer,
        lookup-remove s.host s.viewer (Map.remove s.viewer h.in_session),
        lookup-remove s.viewer s.viewer h.in_session,
      ),
      ground (
        arith,
        e,
        p,
        text_beq_iff s.viewer by,
        text_beq_iff s.host by,
        beq_refl s.host,
        lookup-remove s.host s.host (Map.remove s.viewer h.in_session),
      ),
    ),
    λ np. elim (Bool-cases (s.viewer == by)) [
      | inl y ↦ absurd (np (inl (ground (arith, text_beq_iff s.viewer by))))
      | inr n ↦ elim (Bool-cases (s.host == by)) [
        | inl y ↦ absurd (np (inr (ground (arith, text_beq_iff s.host by))))
        | inr n' ↦ ground (arith, e, n, n')
      ]
    ],
  )

  -- Only the viewer settles how a session was set up, and only once: any other report leaves every
  -- session as it was, and the viewer's turns a pending session direct or relayed.
  pub set_mode-once :
      (session k : ℕ) (from : Text) (b : Bool) (now : ℕ) (h : Hub F) (s : Session F)
      → Map.lookup session h.sessions ≡ some s
      → Map.lookup k (set_mode session from b now h).sessions ≡ (
          if nat_beq session k && (s.viewer == from && mode_beq s.mode pending)
          then some (record s { mode = if b then direct else relayed; last_activity = now })
          else Map.lookup k h.sessions)
  unfolding set_mode
  set_mode-once session k from b now h s e = ground (
    arith,
    e,
    lookup-insert session k (record s { mode = if b then direct else relayed; last_activity = now })
        h.sessions,
  )

  lookup-end_all :
      (sids : List ℕ) (k : ℕ) (g : Inner F)
      → Map.lookup k (end_all sids g).1.sessions
        ≡ (if Map.contains k sids then none else Map.lookup k g.sessions)
  unfolding end_all Map.contains
  lookup-end_all [] k g = refl
  lookup-end_all (sid ∷ sids) k g =
      ground (arith, lookup-end_all sids k (end_locked sid g).1, lookup-end_locked sid k g)

  -- A session that was asked for a minute ago and was never set up, or that is relayed and has been
  -- silent for two minutes, in nanoseconds.
  unfoldable pub IsOver : ℕ → Session F → Type 0
  IsOver now s =
      ((s.mode ≡ pending) × (s.created + 60_000_000_000 < now))
      ⊎ ((s.mode ≡ relayed) × (s.last_activity + 120_000_000_000 < now))

  is_stale-IsOver : (now : ℕ) (s : Session F) → is_stale now s ≡ true → IsOver now s
  unfolding is_stale IsOver
  is_stale-IsOver now s e = ground arith

  IsOver-is_stale : (now : ℕ) (s : Session F) → IsOver now s → is_stale now s ≡ true
  unfolding is_stale IsOver
  IsOver-is_stale now s h = ground arith

  -- What the two devices of a session, if they are online, are told of its end.
  unfoldable pub summary : ℕ → Session F → Hub F → Ended
  summary sid s h = record {
    session = sid;
    viewer = s.viewer;
    host = s.host;
    mode = s.mode;
    bytes = s.bytes;
    notify = outboxes h.devices (s.viewer ∷ s.host ∷ []);
  }

  in_session-end_locked :
      (sid : ℕ) (d : Text) (g : Inner F)
      → Map.lookup d g.in_session ≡ none
      → Map.lookup d (end_locked sid g).1.in_session ≡ none
  unfolding end_locked
  in_session-end_locked sid d g e =
      option_both (λ (r : Option Ended × Inner F). Map.lookup d r.1.in_session ≡ none)
        (Map.lookup sid g.sessions) (λ q. e)
        (λ s q. ground (
          arith,
          e,
          lookup-remove s.host d (Map.remove s.viewer g.in_session),
          lookup-remove s.viewer d g.in_session,
        ))

  in_session-end_all :
      (sids : List ℕ) (d : Text) (g : Inner F)
      → Map.lookup d g.in_session ≡ none
      → Map.lookup d (end_all sids g).1.in_session ≡ none
  unfolding end_all
  in_session-end_all [] d g e = e
  in_session-end_all (sid ∷ sids) d g e =
      in_session-end_all sids d (end_locked sid g).1 (in_session-end_locked sid d g e)

  end_locked-told :
      (k : ℕ) (s : Session F) (h : Hub F) (g : Inner F)
      → Map.lookup k g.sessions ≡ some s
      → g.devices ≡ h.devices
      → ((end_locked k g).0 ≡ some (summary k s h))
        × (Map.lookup s.viewer (end_locked k g).1.in_session ≡ none)
        × (Map.lookup s.host (end_locked k g).1.in_session ≡ none)
  unfolding end_locked summary
  end_locked-told k s h g e same = (
    ground (arith, e, ap (λ ds. outboxes ds (s.viewer ∷ s.host ∷ [])) same),
    ground (
      arith,
      e,
      beq_refl s.viewer,
      lookup-remove s.host s.viewer (Map.remove s.viewer g.in_session),
      lookup-remove s.viewer s.viewer g.in_session,
    ),
    ground
        (arith, e, beq_refl s.host, lookup-remove s.host s.host (Map.remove s.viewer g.in_session)),
  )

  end_locked-devices : (sid : ℕ) (g : Inner F) → (end_locked sid g).1.devices ≡ g.devices
  unfolding end_locked
  end_locked-devices sid g =
      option_both (λ (r : Option Ended × Inner F). r.1.devices ≡ g.devices)
        (Map.lookup sid g.sessions) (λ q. refl) (λ s q. refl)

  -- One of the sessions that are ended: its devices are free, and its end is told.
  end_all-told :
      (sids : List ℕ) (k : ℕ) (s : Session F) (h : Hub F) (g : Inner F)
      → Map.lookup k g.sessions ≡ some s
      → g.devices ≡ h.devices
      → Map.contains k sids ≡ true
      → (Map.lookup s.viewer (end_all sids g).1.in_session ≡ none)
        × (Map.lookup s.host (end_all sids g).1.in_session ≡ none)
        × Has (summary k s h) (end_all sids g).0
  unfolding end_all Map.contains
  end_all-told [] k s h g e same c = ground (arith, c)
  end_all-told (sid ∷ sids) k s h g e same c = elim (Bool-cases (sid == k)) [
    | inl y ↦
        let at : sid ≡ k = ground (arith, y, nat_eq.beq_iff sid k) in
        let told : ((end_locked sid g).0 ≡ some (summary k s h))
            × (Map.lookup s.viewer (end_locked sid g).1.in_session ≡ none)
            × (Map.lookup s.host (end_locked sid g).1.in_session ≡ none) =
          rw at (end_locked-told k s h g e same) in
        (
          in_session-end_all sids s.viewer (end_locked sid g).1 told.1,
          in_session-end_all sids s.host (end_locked sid g).1 told.2,
          subst (λ o. Has (summary k s h) (one o ++ (end_all sids (end_locked sid g).1).0))
              (sym told.0) (inl refl),
        )
    | inr n ↦
        let rest : (Map.lookup s.viewer (end_all sids (end_locked sid g).1).1.in_session ≡ none)
            × (Map.lookup s.host (end_all sids (end_locked sid g).1).1.in_session ≡ none)
            × Has (summary k s h) (end_all sids (end_locked sid g).1).0 =
          end_all-told sids k s h (end_locked sid g).1
            (ground (arith, e, n, lookup-end_locked sid k g)) (end_locked-devices sid g ∙ same)
            (ground (arith, c, n)) in
        (rest.0, rest.1, Has-append (summary k s h) (one (end_locked sid g).0) _ rest.2)
  ]

  -- A sweep ends the sessions that are over and no other: one that was asked for more than a minute
  -- ago and was never set up, or that is relayed and has been silent for more than two minutes, is
  -- removed, its devices are free, and its end is reported; every other session stays as it is.
  pub sweep-IsOver :
      (now k : ℕ) (h : Hub F) (s : Session F)
      → Map.lookup k h.sessions ≡ some s
      → (IsOver now s
          → (Map.lookup k (sweep now h).1.sessions ≡ none)
            × (Map.lookup s.viewer (sweep now h).1.in_session ≡ none)
            × (Map.lookup s.host (sweep now h).1.in_session ≡ none)
            × Has (summary k s h) (sweep now h).0)
        × (¬ IsOver now s → Map.lookup k (sweep now h).1.sessions ≡ some s)
  unfolding sweep
  sweep-IsOver now k h s e =
      let sids : List ℕ = Map.keys_where (λ _ s. is_stale now s) h.sessions in
      let listed : Map.contains k sids
          ≡ passes (λ _ s. is_stale now s) k (Map.lookup k h.sessions) =
        contains-keys_where (λ _ s. is_stale now s) k h.sessions in
      (
        λ over.
            let stale : is_stale now s ≡ true = IsOver-is_stale now s over in
            let told : (Map.lookup s.viewer (end_all sids h.inner).1.in_session ≡ none)
                × (Map.lookup s.host (end_all sids h.inner).1.in_session ≡ none)
                × Has (summary k s h) (end_all sids h.inner).0 =
              end_all-told sids k s h h.inner e refl (ground (arith, listed, e, stale)) in
            (
              ground (arith, listed, e, stale, lookup-end_all sids k h.inner),
              told.0,
              told.1,
              told.2,
            ),
        λ still. elim (Bool-cases (is_stale now s)) [
          | inl y ↦ absurd (still (is_stale-IsOver now s y))
          | inr n ↦ ground (arith, listed, e, n, lookup-end_all sids k h.inner)
        ],
      )

  is_banned-locked :
      (viewer : Text) (ip now : ℕ) (h : Hub F)
      → (is_some (Limiter.locked viewer now h.lim.pw_fail_viewer).0 ≡ true)
        ⊎ (is_some (Limiter.locked ip now h.lim.pw_fail_ip).0 ≡ true)
      → (is_banned viewer ip now h).0 ≡ true
  unfolding is_banned ban_by_ip
  is_banned-locked viewer ip now h e = ground arith

  throttle-refuses :
      (viewer : Text) (ip now : ℕ) (h : Hub F)
      → (is_some (Limiter.locked viewer now h.lim.pw_fail_viewer).0 ≡ true)
        ⊎ (is_some (Limiter.locked ip now h.lim.pw_fail_ip).0 ≡ true)
      → ((throttle viewer ip now h).0 ≡ some rate_limited)
        ⊎ ((throttle viewer ip now h).0 ≡ some banned)
  unfolding throttle
  throttle-refuses viewer ip now h e =
      ground
        (arith, is_banned-locked viewer ip now (count_attempt viewer now (ask_source viewer now h)))

  report_password_failure-locks :
      (session : ℕ) (host : Text) (now later : ℕ) (h : Hub F) (s : Session F)
      → Map.lookup session h.sessions ≡ some s
      → (report_password_failure session host now h).0 ≡ some (s.viewer, true)
      → later < now + h.lim.pw_fail_viewer.lockout
      → later < now + h.lim.pw_fail_ip.lockout
      → let h' = (report_password_failure session host now h).1 in
        (host ≡ s.host)
        × (h'.devices ≡ h.devices)
        × ((is_some (Limiter.locked s.viewer later h'.lim.pw_fail_viewer).0 ≡ true)
            ⊎ (is_some (Limiter.locked s.viewer_ip later h'.lim.pw_fail_ip).0 ≡ true))
  unfolding report_password_failure
  report_password_failure-locks session host now later h s e bans early early' = (
    ground (arith, e, text_beq_iff s.host host),
    ground (arith, e),
    elim (Bool-cases (Limiter.record_failure s.viewer now h.lim.pw_fail_viewer).0) [
      | inl y ↦
          inl
            (ground (arith, e, y, locked-record_failure s.viewer now later h.lim.pw_fail_viewer y))
      | inr n ↦
          inr (ground (arith, e, n, locked-record_failure s.viewer_ip now later h.lim.pw_fail_ip))
    ],
  )

module _ (fl : Float) where
  open fl use {F}

  connect-throttled :
      (viewer target : Text) (sid now : ℕ) (h : Hub F) (c : Conn)
      → Map.lookup viewer h.devices ≡ some c
      → ((throttle viewer c.ip now h).0 ≡ some rate_limited)
        ⊎ ((throttle viewer c.ip now h).0 ≡ some banned)
      → ((connect fl viewer target sid now h).0 ≡ err rate_limited)
        ⊎ ((connect fl viewer target sid now h).0 ≡ err banned)
  unfolding connect
  connect-throttled viewer target sid now h c on (inl e) = inl (ground (arith, on, e))
  connect-throttled viewer target sid now h c on (inr e) = inr (ground (arith, on, e))

  -- A report of anybody but the session's host changes nothing and has no answer. If a report
  -- triggers a ban then, until the shorter of the two lockouts is over, the next request of that viewer
  -- from the session's address is refused, whatever device it names.
  pub report_password_failure-bans :
      (session : ℕ) (host target : Text) (now later sid : ℕ) (h : Hub F) (s : Session F) (c : Conn)
      → Map.lookup session h.sessions ≡ some s
      → (host ≢ s.host → report_password_failure session host now h ≡ (none, h))
        × ((report_password_failure session host now h).0 ≡ some (s.viewer, true)
            → later < now + h.lim.pw_fail_viewer.lockout
            → later < now + h.lim.pw_fail_ip.lockout
            → Map.lookup s.viewer h.devices ≡ some c
            → c.ip ≡ s.viewer_ip
            → let r =
                connect fl s.viewer target sid later
                  (report_password_failure session host now h).1 in
              (r.0 ≡ err rate_limited) ⊎ (r.0 ≡ err banned))
  unfolding report_password_failure
  report_password_failure-bans session host target now later sid h s c e = (
    λ other. elim (Bool-cases (s.host == host)) [
      | inl y ↦ absurd (other (ground (arith, text_beq_iff s.host host)))
      | inr n ↦ ground (arith, e, n)
    ],
    λ bans early early' on same.
        let h' : Hub F = (report_password_failure session host now h).1 in
        let (reporter, devices, locked) =
          report_password_failure-locks session host now later h s e bans early early' in
        connect-throttled s.viewer target sid later h' c (ap (Map.lookup s.viewer) devices ∙ on)
          (throttle-refuses s.viewer c.ip later h' (rw same locked)),
  )
