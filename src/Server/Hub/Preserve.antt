-- ===== src/Server/Hub/Preserve.antt =====
-- Every method of the hub keeps the invariant.
use remote_x.Prelude.{
  if_both, not, ◌&&◌, ℕ, ◌≤◌, ◌≡◌, refl, Option, some, List, [], ◌∷◌, inl, inr, arith, Option-cases,
  Bool-cases, Bool, nat_beq,
}
use remote_x.Prelude.Eq.{nat_eq, ◌==◌}
use remote_x.Common.Text.{Text, text_eq, text_beq_iff}
use remote_x.Map
use remote_x.Map.Laws.{lookup-remove, lookup-insert, len-insert-old}
use remote_x.Server.State.{Conn, Session, Inner, Hub, Ended, mode_beq, pending}
use remote_x.Server.Hub.{
  end_locked, with_inner, attach, update_incoming, detach, drop_device, set_mode, end_by,
  report_password_failure, sweep, end_all, is_stale, next_conn_id, count_error, ip_banned_for_auth,
  record_auth_failure, allow_register, admin_locked, admin_failure,
}
use remote_x.Server.Hub.Inv.{
  Inv, IsConsistent, IsPartner, end_locked-IsConsistent, end_locked-len, ended-IsConsistent,
}

module _ {F : Type 0} where
  -- Only the limiters and the counters may differ.
  pub record SameBook (h h' : Hub F) : Type 0 where
    pub devices : h'.devices ≡ h.devices
    pub sessions : h'.sessions ≡ h.sessions
    pub in_session : h'.in_session ≡ h.in_session
    pub cfg : h'.cfg ≡ h.cfg

  pub SameBook-Inv : {h h' : Hub F} → SameBook h h' → Inv h → Inv h'
  SameBook-Inv {h} {h'} b v = record {
    consistent = record {
      linked = λ sid s e. ground (arith, b.sessions, b.in_session, v.consistent.linked sid s);
      owned = λ d sid e.
          let (s, live, p) = v.consistent.owned d sid (ground (arith, b.in_session)) in
          (s, ground (arith, b.sessions), p);
      online = λ d sid e. ground (arith, b.devices, b.in_session, v.consistent.online d sid);
    };
    within = ground (arith, b.sessions, b.cfg, v.within);
  }

  pub end_locked-Inv : (sid : ℕ) (h : Hub F) → Inv h → Inv (with_inner h (end_locked sid h.inner).1)
  end_locked-Inv sid h v = record {
    consistent = end_locked-IsConsistent sid h.inner v.consistent;
    within = omega (arith, v.within, end_locked-len sid h.inner);
  }

  pub attach-Inv : (id : Text) (conn : Conn) (h : Hub F) → Inv h → Inv (attach id conn h).1
  unfolding attach
  attach-Inv id conn h v = record {
    consistent = record {
      linked = v.consistent.linked;
      owned = v.consistent.owned;
      online =
          λ d sid e. ground (arith, lookup-insert id d conn h.devices, v.consistent.online d sid);
    };
    within = v.within;
  }

  pub update_incoming-Inv :
      (id : Text) (conn_id : ℕ) (b : Bool) (h : Hub F)
      → Inv h
      → Inv (update_incoming id conn_id b h)
  unfolding update_incoming
  update_incoming-Inv id conn_id b h v = elim (Option-cases (Map.lookup id h.devices)) [
    | inl e ↦ rw (e, update_incoming) v
    | inr (c, e) ↦
        rw (e, update_incoming)
          (if_both Inv (nat_beq c.conn_id conn_id)
            (λ y. unfold attach in attach-Inv id (record c { incoming_enabled = b }) h v) (λ n. v))
  ]

  -- A change of a session that leaves its participants alone.
  pub with_session-Inv :
      (sid : ℕ) (s s' : Session F) (h : Hub F)
      → Map.lookup sid h.sessions ≡ some s
      → s'.viewer ≡ s.viewer
      → s'.host ≡ s.host
      → Inv h
      → Inv (with_inner h (record h.inner { sessions = Map.insert sid s' h.sessions }))
  with_session-Inv sid s s' h found same_viewer same_host v = record {
    consistent = record {
      linked = λ k t e. ground (
        arith,
        lookup-insert sid k s' h.sessions,
        v.consistent.linked k t,
        v.consistent.linked sid s found,
      );
      owned = λ d k e. owned d k (v.consistent.owned d k e);
      online = v.consistent.online;
    };
    within = omega (arith, v.within, len-insert-old sid s s' h.sessions found);
  }
    where
      owned :
          (d : Text) (k : ℕ)
          → (t : Session F) × (Map.lookup k h.sessions ≡ some t) × IsPartner d t
          → (t : Session F) × (Map.lookup k (Map.insert sid s' h.sessions) ≡ some t) × IsPartner d t
      owned d k (t, live, p) = elim (Bool-cases (nat_beq sid k)) [
        | inl y ↦ (s', ground (arith, lookup-insert sid k s' h.sessions), ground arith)
        | inr n ↦ (t, ground (arith, lookup-insert sid k s' h.sessions), p)
      ]

  pub set_mode-Inv :
      (session : ℕ) (from : Text) (b : Bool) (now : ℕ) (h : Hub F)
      → Inv h
      → Inv (set_mode session from b now h)
  unfolding set_mode
  set_mode-Inv session from b now h v = elim (Option-cases (Map.lookup session h.sessions)) [
    | inl e ↦ rw (e, set_mode) v
    | inr (s, e) ↦
        rw (e, set_mode)
          (if_both Inv (s.viewer == from && mode_beq s.mode pending)
            (λ _. with_session-Inv session s _ h e refl refl v) (λ _. v))
  ]

  pub end_by-Inv : (session : ℕ) (by : Text) (h : Hub F) → Inv h → Inv (end_by session by h).1
  unfolding end_by
  end_by-Inv session by h v = elim (Option-cases (Map.lookup session h.sessions)) [
    | inl e ↦ rw (e, end_by) v
    | inr (s, e) ↦
        rw (e, end_by)
          (if_both (λ (r : Option Ended × Hub F). Inv r.1)
            (not (s.viewer == by) && not (s.host == by)) (λ _. v) (λ _. end_locked-Inv session h v))
  ]

  pub report_password_failure-SameBook :
      (session : ℕ) (host : Text) (now : ℕ) (h : Hub F)
      → SameBook h (report_password_failure session host now h).1
  unfolding report_password_failure
  report_password_failure-SameBook session host now h = ground arith

  -- The device goes, and so does the session that it was in.
  drop_device-IsConsistent :
      (id : Text) (g : Inner F)
      → IsConsistent g
      → IsConsistent (drop_device id (record g { devices = Map.remove id g.devices })).1
  unfolding drop_device end_locked
  drop_device-IsConsistent id g v = elim (Option-cases (Map.lookup id g.in_session)) [
    | inl e ↦
        rw (e, drop_device)
          (record {
            linked = v.linked;
            owned = v.owned;
            online = λ d sid p.
                ground (arith, v.online d sid p, lookup-remove id d g.devices, text_beq_iff id d);
          })
    | inr (sid, e) ↦
        rw (e, drop_device)
          (let (s, live, p) = v.owned id sid e in
            rw (live, end_locked) (dropped sid s live p (ended-IsConsistent g v sid s live)))
  ]
    where
      dropped :
          (sid : ℕ) (s : Session F) (live : Map.lookup sid g.sessions ≡ some s)
          → IsPartner id s
          → IsConsistent (record g {
            sessions = Map.remove sid g.sessions;
            in_session = Map.remove s.host (Map.remove s.viewer g.in_session);
          })
          → IsConsistent (record g {
            devices = Map.remove id g.devices;
            sessions = Map.remove sid g.sessions;
            in_session = Map.remove s.host (Map.remove s.viewer g.in_session);
          })
      dropped sid s live p c = record {
        linked = c.linked;
        owned = c.owned;
        online = λ d k q. ground (
          arith,
          c.online d k q,
          lookup-remove id d g.devices,
          text_beq_iff id d,
          text_beq_iff s.host d,
          text_beq_iff s.viewer d,
          lookup-remove s.host d (Map.remove s.viewer g.in_session),
          lookup-remove s.viewer d g.in_session,
        );
      }

  drop_device-len :
      (id : Text) (g : Inner F) → Map.len (drop_device id g).1.sessions ≤ Map.len g.sessions
  unfolding drop_device
  drop_device-len id g = elim (Option-cases (Map.lookup id g.in_session)) [
    | inl e ↦ rw (e, drop_device) (omega arith)
    | inr (sid, e) ↦ rw (e, drop_device) (end_locked-len sid g)
  ]

  pub detach-Inv : (id : Text) (conn_id : ℕ) (h : Hub F) → Inv h → Inv (detach id conn_id h).1
  unfolding detach
  detach-Inv id conn_id h v = elim (Option-cases (Map.lookup id h.devices)) [
    | inl e ↦ rw (e, detach) v
    | inr (c, e) ↦
        rw (e, detach)
          (if_both (λ (r : List Ended × Hub F). Inv r.1) (nat_beq c.conn_id conn_id)
            (λ _. record {
              consistent = drop_device-IsConsistent id h.inner v.consistent;
              within = omega (
                arith,
                v.within,
                drop_device-len id (record h.inner { devices = Map.remove id h.devices }),
              );
            })
            (λ _. v))
  ]

  end_all-IsConsistent :
      (sids : List ℕ) (g : Inner F) → IsConsistent g → IsConsistent (end_all sids g).1
  unfolding end_all
  end_all-IsConsistent [] g v = v
  end_all-IsConsistent (sid ∷ sids) g v =
      end_all-IsConsistent sids (end_locked sid g).1 (end_locked-IsConsistent sid g v)

  end_all-len :
      (sids : List ℕ) (g : Inner F) → Map.len (end_all sids g).1.sessions ≤ Map.len g.sessions
  unfolding end_all
  end_all-len [] g = omega arith
  end_all-len (sid ∷ sids) g =
      omega (arith, end_all-len sids (end_locked sid g).1, end_locked-len sid g)

  pub sweep-Inv : (now : ℕ) (h : Hub F) → Inv h → Inv (sweep now h).1
  unfolding sweep
  sweep-Inv now h v =
      let stale : List ℕ = Map.keys_where (λ _ s. is_stale now s) h.sessions in
      let c = end_all-IsConsistent stale h.inner v.consistent in
      record {
        consistent = record { linked = c.linked; owned = c.owned; online = c.online };
        within = omega (arith, v.within, end_all-len stale h.inner);
      }

  pub limiter_calls-SameBook :
      (ip now : ℕ) (h : Hub F)
      → SameBook h (ip_banned_for_auth ip now h).1
        × SameBook h (record_auth_failure ip now h).1
        × SameBook h (allow_register ip now h).1
        × SameBook h (admin_locked ip now h).1
        × SameBook h (admin_failure ip now h)
        × SameBook h (next_conn_id h).1
        × SameBook h (count_error h)
  unfolding ip_banned_for_auth record_auth_failure allow_register admin_locked admin_failure
      next_conn_id count_error
  limiter_calls-SameBook ip now h = (
    ground arith,
    ground arith,
    ground arith,
    ground arith,
    ground arith,
    ground arith,
    ground arith,
  )
