-- ===== src/Server/Hub/Connect/Steps.antt =====
-- The parts of `connect`: what each leaves of the hub.
use remote_x.Prelude.{
  ℕ, ◌<◌, ◌≡◌, ◌≢◌, refl, Option, none, some, inl, inr, arith, Option-cases, true, false, if_both,
}
use remote_x.Prelude.Result.{ok}
use remote_x.Prelude.Eq.{nat_eq, ◌==◌}
use remote_x.Common.Text.{Text, text_eq, text_beq_iff}
use remote_x.Common.Ids.{parse}
use remote_x.Float.{Float}
use remote_x.Map
use remote_x.Map.Laws.{lookup-insert, len-insert-le}
use remote_x.Server.State.{Conn, Limiters, Session, Hub, Ended, ConnectFailure, is_some}
use remote_x.Server.Hub.{end_locked, with_inner, with_lim}
use remote_x.Server.Hub.Connect.{
  record_enumeration, ban_by_enumeration, ban_by_ip, is_banned, throttle, find_target, ask_source,
  count_attempt, replace_own,
}
use remote_x.Server.Hub.Inv.{Inv, IsPartner, lookup-end_locked}
use remote_x.Server.Hub.Preserve.{SameBook, end_locked-Inv}

module _ {F : Type 0} where
  is_banned-SameBook :
      (viewer : Text) (ip now : ℕ) (h : Hub F) → SameBook h (is_banned viewer ip now h).1
  unfolding is_banned ban_by_ip ban_by_enumeration
  is_banned-SameBook viewer ip now h = ground arith

  SameBook-lim : (h h' : Hub F) (l : Limiters) → SameBook (with_lim h l) h' → SameBook h h'
  SameBook-lim h h' l b = record {
    devices = b.devices;
    sessions = b.sessions;
    in_session = b.in_session;
    cfg = b.cfg;
  }

  pub throttle-SameBook :
      (viewer : Text) (ip now : ℕ) (h : Hub F) → SameBook h (throttle viewer ip now h).1
  unfolding throttle
  throttle-SameBook viewer ip now h =
      let h2 : Hub F = count_attempt viewer now (ask_source viewer now h) in
      let b : SameBook h (is_banned viewer ip now h2).1 =
        SameBook-lim h _ h2.lim (is_banned-SameBook viewer ip now h2) in
      if_both (λ (r : Option ConnectFailure × Hub F). SameBook h r.1)
        (is_some (remote_x.Security.Limiter.locked viewer now h.lim.connect_src).0)
        (λ _. record { devices = refl; sessions = refl; in_session = refl; cfg = refl })
        (λ _.
          if_both (λ (r : Option ConnectFailure × Hub F). SameBook h r.1)
            (is_banned viewer ip now h2).0 (λ _. b) (λ _. b))

  pub find_target-SameBook :
      (viewer : Text) (ip : ℕ) (target : Text) (now : ℕ) (h : Hub F)
      → SameBook h (find_target viewer ip target now h).1
  unfolding find_target record_enumeration
  find_target-SameBook viewer ip target now h = ground arith

  -- A target that is found is online, takes calls, and is not the viewer itself.
  pub find_target-found :
      (viewer : Text) (ip : ℕ) (target : Text) (now : ℕ) (h : Hub F) (id : Text) (c : Conn)
      → (find_target viewer ip target now h).0 ≡ ok (id, c)
      → (parse target ≡ some id)
        × (id ≢ viewer)
        × (Map.lookup id h.devices ≡ some c)
        × (c.incoming_enabled ≡ true)
  unfolding find_target
  find_target-found viewer ip target now h id c e = ground (arith, text_beq_iff id viewer)

  -- What is left after the viewer's own session is replaced.
  pub record Replaced (h h' : Hub F) : Type 0 where
    pub inv : Inv h'
    pub devices : h'.devices ≡ h.devices
    pub cfg : h'.cfg ≡ h.cfg
    pub fewer : (k : ℕ) → Map.lookup k h.sessions ≡ none → Map.lookup k h'.sessions ≡ none

  pub replace_own-Replaced :
      (viewer : Text) (h : Hub F) → Inv h → Replaced h (replace_own viewer h).1
  unfolding replace_own
  replace_own-Replaced viewer h v = elim (Option-cases (Map.lookup viewer h.in_session)) [
    | inl e ↦ rw (e, replace_own) same
    | inr (old, e) ↦ elim (Option-cases (Map.lookup old h.sessions)) [
      | inl e' ↦ rw (e, e', replace_own) same
      | inr (s, e') ↦
          rw (e, e', replace_own)
            (if_both (λ (r : Option Ended × Hub F). Replaced h r.1) (s.viewer == viewer)
              (λ _. record {
                inv = end_locked-Inv old h v;
                devices = unfold end_locked in ground arith;
                cfg = refl;
                fewer = λ k q. ground (arith, lookup-end_locked old k h.inner);
              })
              (λ _. same))
    ]
  ]
    where
      same : Replaced h h
      same = record { inv = v; devices = refl; cfg = refl; fewer = λ k q. q }

module _ (fl : Float) where
  open fl use {F}

  -- A new session between two devices that are online and in no session keeps the invariant.
  module _ (viewer host : Text) (vc hc : Conn) (sid now : ℕ) (s : Session F) (h : Hub F) (v : Inv h)
      (fresh : Map.lookup sid h.sessions ≡ none)
      (viewer_online : Map.lookup viewer h.devices ≡ some vc)
      (host_online : Map.lookup host h.devices ≡ some hc)
      (viewer_free : Map.lookup viewer h.in_session ≡ none)
      (host_free : Map.lookup host h.in_session ≡ none) (apart : host ≢ viewer)
      (its_viewer : s.viewer ≡ viewer) (its_host : s.host ≡ host)
      (room : Map.len h.sessions < h.cfg.max_sessions) where
    abbrev opened : Hub F
    opened = with_inner h (record h.inner {
      sessions = Map.insert sid s h.sessions;
      in_session = Map.insert host sid (Map.insert viewer sid h.in_session);
    })

    opened-in_session :
        (d : Text)
        → Map.lookup d opened.in_session ≡ elim (host == d) [
          | true ↦ some sid
          | false ↦ elim (viewer == d) [ true ↦ some sid | false ↦ Map.lookup d h.in_session ]
        ]
    opened-in_session d = ground (
      arith,
      lookup-insert host d sid (Map.insert viewer sid h.in_session),
      lookup-insert viewer d sid h.in_session,
    )

    opened-linked :
        (k : ℕ) (t : Session F)
        → Map.lookup k opened.sessions ≡ some t
        → (Map.lookup t.viewer opened.in_session ≡ some k)
          × (Map.lookup t.host opened.in_session ≡ some k)
          × (t.viewer ≢ t.host)
    opened-linked k t e = ground (
      arith,
      lookup-insert sid k s h.sessions,
      v.consistent.linked k t,
      opened-in_session t.viewer,
      opened-in_session t.host,
      text_beq_iff host t.viewer,
      text_beq_iff host t.host,
      text_beq_iff viewer t.viewer,
      text_beq_iff viewer t.host,
    )

    opened-owned :
        (d : Text) (k : ℕ)
        → Map.lookup d opened.in_session ≡ some k
        → (t : Session F) × (Map.lookup k opened.sessions ≡ some t) × IsPartner d t
    opened-owned d k e = elim (Option-cases (Map.lookup d h.in_session)) [
      | inl q ↦ (
        s,
        ground (arith, opened-in_session d, lookup-insert sid k s h.sessions),
        ground (arith, opened-in_session d, text_beq_iff host d, text_beq_iff viewer d),
      )
      | inr (k', q) ↦
          let (t, live, p) = v.consistent.owned d k' q in
          (
            t,
            ground (
              arith,
              opened-in_session d,
              lookup-insert sid k s h.sessions,
              text_beq_iff host d,
              text_beq_iff viewer d,
            ),
            p,
          )
    ]

    pub opened-Inv : Inv opened
    opened-Inv = record {
      consistent = record {
        linked = opened-linked;
        owned = opened-owned;
        online = λ d k e. ground (
          arith,
          opened-in_session d,
          v.consistent.online d k,
          text_beq_iff host d,
          text_beq_iff viewer d,
        );
      };
      within = omega (arith, len-insert-le sid s h.sessions);
    }
