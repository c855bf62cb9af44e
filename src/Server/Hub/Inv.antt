-- ===== src/Server/Hub/Inv.antt =====
-- The invariant of the hub: the sessions, who is in which, and who is online agree.
use remote_x.Prelude.{ℕ, ◌≤◌, ◌≡◌, ◌≢◌, none, some, ◌⊎◌, inl, inr, arith, Option-cases, true, false}
use remote_x.Prelude.Eq.{nat_eq, ◌==◌}
use remote_x.Common.Text.{Text, text_eq, text_beq_iff}
use remote_x.Map
use remote_x.Map.Laws.{lookup-remove, lookup-empty, len-remove-le}
use remote_x.Server.State.{Session, Inner, Config, Hub, is_some}
use remote_x.Server.Hub.{new, end_locked}

module _ {F : Type 0} where
  -- `d` takes part in `s`.
  abbrev pub IsPartner : Text → Session F → Type 0
  IsPartner d s = (d ≡ s.viewer) ⊎ (d ≡ s.host)

  pub record IsConsistent (g : Inner F) : Type 0 where
    pub linked :
        (sid : ℕ) (s : Session F)
        → Map.lookup sid g.sessions ≡ some s
        → (Map.lookup s.viewer g.in_session ≡ some sid)
          × (Map.lookup s.host g.in_session ≡ some sid)
          × (s.viewer ≢ s.host)
    pub owned :
        (d : Text) (sid : ℕ)
        → Map.lookup d g.in_session ≡ some sid
        → (s : Session F) × (Map.lookup sid g.sessions ≡ some s) × IsPartner d s
    pub online :
        (d : Text) (sid : ℕ)
        → Map.lookup d g.in_session ≡ some sid
        → is_some (Map.lookup d g.devices) ≡ true

  pub record Inv (h : Hub F) : Type 0 where
    pub consistent : IsConsistent h.inner
    pub within : Map.len h.sessions ≤ h.cfg.max_sessions

  pub new-Inv : (c : Config) → Inv (new {F = F} c)
  unfolding new Map.len Map.empty
  new-Inv c = record {
    consistent = record {
      linked = λ sid s e. cc (lookup-empty {V = Session F} sid);
      owned = λ d sid e. cc (lookup-empty {V = ℕ} d);
      online = λ d sid e. cc (lookup-empty {V = ℕ} d);
    };
    within = omega arith;
  }

  module _ (g : Inner F) (v : IsConsistent g) (sid : ℕ) (s : Session F)
      (found : Map.lookup sid g.sessions ≡ some s) where
    abbrev pub ended : Inner F
    ended = record g {
      sessions = Map.remove sid g.sessions;
      in_session = Map.remove s.host (Map.remove s.viewer g.in_session);
    }

    pub in_session-ended :
        (d : Text)
        → Map.lookup d ended.in_session ≡ elim (s.host == d) [
          | true ↦ none
          | false ↦ elim (s.viewer == d) [ true ↦ none | false ↦ Map.lookup d g.in_session ]
        ]
    in_session-ended d = ground (
      arith,
      lookup-remove s.host d (Map.remove s.viewer g.in_session),
      lookup-remove s.viewer d g.in_session,
    )

    ended-linked :
        (k : ℕ) (t : Session F)
        → Map.lookup k ended.sessions ≡ some t
        → (Map.lookup t.viewer ended.in_session ≡ some k)
          × (Map.lookup t.host ended.in_session ≡ some k)
          × (t.viewer ≢ t.host)
    ended-linked k t e = ground (
      arith,
      found,
      lookup-remove sid k g.sessions,
      v.linked k t,
      v.linked sid s found,
      in_session-ended t.viewer,
      in_session-ended t.host,
      text_beq_iff s.host t.viewer,
      text_beq_iff s.viewer t.viewer,
      text_beq_iff s.host t.host,
      text_beq_iff s.viewer t.host,
    )

    ended-owned :
        (d : Text) (k : ℕ)
        → Map.lookup d ended.in_session ≡ some k
        → (t : Session F) × (Map.lookup k ended.sessions ≡ some t) × IsPartner d t
    ended-owned d k e =
        let (t, live, partner) = v.owned d k (ground (arith, in_session-ended d)) in
        (
          t,
          ground (
            arith,
            found,
            lookup-remove sid k g.sessions,
            v.linked sid s found,
            in_session-ended d,
            text_beq_iff s.host d,
            text_beq_iff s.viewer d,
          ),
          partner,
        )

    pub ended-IsConsistent : IsConsistent ended
    ended-IsConsistent = record {
      linked = ended-linked;
      owned = ended-owned;
      online = λ d k e. v.online d k (ground (arith, in_session-ended d));
    }

  -- Ending a session, if there is one of that id, keeps the maps consistent.
  pub end_locked-IsConsistent :
      (sid : ℕ) (g : Inner F) → IsConsistent g → IsConsistent (end_locked sid g).1
  unfolding end_locked
  end_locked-IsConsistent sid g v = elim (Option-cases (Map.lookup sid g.sessions)) [
    | inl e ↦ rw (e, end_locked) v
    | inr (s, e) ↦ rw (e, end_locked) (ended-IsConsistent g v sid s e)
  ]

  -- It removes that session and adds none.
  pub end_locked-len :
      (sid : ℕ) (g : Inner F) → Map.len (end_locked sid g).1.sessions ≤ Map.len g.sessions
  unfolding end_locked
  end_locked-len sid g = ground (arith, len-remove-le sid g.sessions)

  pub lookup-end_locked :
      (sid k : ℕ) (g : Inner F)
      → Map.lookup k (end_locked sid g).1.sessions
        ≡ elim (sid == k) [ true ↦ none | false ↦ Map.lookup k g.sessions ]
  unfolding end_locked
  lookup-end_locked sid k g = ground (arith, lookup-remove sid k g.sessions)
