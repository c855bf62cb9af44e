-- ===== src/Server/Hub/Access.antt =====
-- Who may do what to a session: relaying, settling its mode, ending it.
use remote_x.Prelude.{
  ℕ, ◌≡◌, ◌≢◌, refl, none, some, ◌⊎◌, inl, inr, arith, Option-cases, Bool-cases, true,
}
use remote_x.Prelude.Eq.{nat_eq, ◌==◌}
use remote_x.Common.Text.{Text, text_eq, text_beq_iff}
use remote_x.Float.{Float}
use remote_x.Map
use remote_x.Server.State.{Conn, Session, Hub, relayed, direct, is_some, mode_beq}
use remote_x.Server.Hub.Inv.{Inv, IsPartner}
use remote_x.Server.Hub.Preserve.{with_session-Inv, SameBook-Inv}
use remote_x.Server.Hub.Relay.{RelayRoute, peer_of, settle, relay_to, relay_route}

module _ {F : Type 0} where
  -- `from` and `peer` are the two participants.
  abbrev pub ArePeers : Text → Text → Session F → Type 0
  ArePeers from peer s =
      ((from ≡ s.viewer) × (peer ≡ s.host)) ⊎ ((from ≡ s.host) × (peer ≡ s.viewer))

  peer_of-ArePeers :
      (s : Session F) (from peer : Text) → peer_of s from ≡ some peer → ArePeers from peer s
  unfolding peer_of
  peer_of-ArePeers s from peer e =
      ground (arith, text_beq_iff s.viewer from, text_beq_iff s.host from)

  peer_of-IsPartner :
      (s : Session F) (from : Text)
      → IsPartner from s
      → (p : Text) × (peer_of s from ≡ some p) × IsPartner p s
  unfolding peer_of
  peer_of-IsPartner s from (inl e) = (s.host, ground (arith, text_beq_iff s.viewer from), inr refl)
  peer_of-IsPartner s from (inr e) = elim (Bool-cases (s.viewer == from)) [
    | inl y ↦ (s.host, ground arith, inr refl)
    | inr n ↦ (s.viewer, ground (arith, text_beq_iff s.host from), inl refl)
  ]

module _ (fl : Float) where
  open fl use {F}

  pub relay_route-Inv :
      (session : ℕ) (from : Text) (len now : ℕ) (h : Hub F)
      → Inv h
      → Inv (relay_route fl session from len now h).1
  unfolding relay_route
  relay_route-Inv session from len now h v = elim (Option-cases (Map.lookup session h.sessions)) [
    | inl e ↦ rw (e, relay_route) v
    | inr (s, e) ↦ elim (Option-cases (peer_of s from)) [
      | inl q ↦ rw (e, q, relay_route) v
      | inr (peer, q) ↦ rw (e, q, relay_route) (kept peer s e)
    ]
  ]
    where
      kept :
          (peer : Text) (s : Session F)
          → Map.lookup session h.sessions ≡ some s
          → Inv (relay_to fl session len now peer s h).1
      kept peer s e = elim (Bool-cases (mode_beq (settle s.mode) relayed)) [
        | inl y ↦
            rw (y, relay_to)
              (SameBook-Inv
                (record { devices = refl; sessions = refl; in_session = refl; cfg = refl })
                (with_session-Inv session s _ h e refl refl v))
        | inr n ↦ rw (n, relay_to) (with_session-Inv session s _ h e refl refl v)
      ]

  -- A frame is routed only for a participant of a session that is not direct, and only to the outbox
  -- of the other participant.
  pub relay_route-peer :
      (session : ℕ) (from : Text) (len now : ℕ) (h : Hub F) (r : RelayRoute)
      → (relay_route fl session from len now h).0 ≡ some r
      → (s : Session F) × (peer : Text) × (c : Conn) × (Map.lookup session h.sessions ≡ some s)
        × (s.mode ≢ direct)
        × ArePeers from peer s
        × (Map.lookup peer h.devices ≡ some c)
        × (r.tx ≡ c.tx)
  unfolding relay_route
  relay_route-peer session from len now h r e =
      elim (Option-cases (Map.lookup session h.sessions)) [
        | inl q ↦ absurd (ground (arith, q, e))
        | inr (s, q) ↦ elim (Option-cases (peer_of s from)) [
          | inl p ↦ absurd (ground (arith, q, p, e))
          | inr (peer, p) ↦ elim (Option-cases (Map.lookup peer h.devices)) [
            | inl o ↦ absurd (ground (arith, q, p, o, e))
            | inr (c, o) ↦ (
              s,
              peer,
              c,
              q,
              ground (arith, q, p, o, e),
              peer_of-ArePeers s from peer p,
              o,
              ground (arith, q, p, o, e),
            )
          ]
        ]
      ]

  -- Whoever is no participant gets no route and leaves the hub as it was.
  pub relay_route-outsider :
      (session : ℕ) (from : Text) (len now : ℕ) (h : Hub F) (s : Session F)
      → Map.lookup session h.sessions ≡ some s
      → from ≢ s.viewer
      → from ≢ s.host
      → relay_route fl session from len now h ≡ (none, h)
  unfolding relay_route peer_of
  relay_route-outsider session from len now h s q nv nh =
      ground (arith, q, text_beq_iff s.viewer from, text_beq_iff s.host from)

  -- In a consistent hub a participant of a session that is not direct always gets a route: its peer
  -- is online.
  pub relay_route-total :
      (session : ℕ) (from : Text) (len now : ℕ) (h : Hub F) (s : Session F)
      → Inv h
      → Map.lookup session h.sessions ≡ some s
      → s.mode ≢ direct
      → IsPartner from s
      → is_some (relay_route fl session from len now h).0 ≡ true
  unfolding relay_route
  relay_route-total session from len now h s v q nd p =
      let (peer, e, pp) = peer_of-IsPartner s from p in
      let l = v.consistent.linked session s q in
      ground (arith, q, e, pp, l, v.consistent.online peer session)
