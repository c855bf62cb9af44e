-- ===== src/Server/Hub/Connect/Success.antt =====
-- What a granted `connect` means, and what a refused one may still have done.
use remote_x.Prelude.{
  ℕ, ◌≡◌, ◌≢◌, refl, sym, ◌∙◌, Option, none, some, [], inl, inr, arith, Option-cases, true,
  if◌then◌else◌, nat_beq, ap,
}
use remote_x.Prelude.Result.{Result, ok, err}
use remote_x.Prelude.Eq.{nat_eq, beq_refl}
use remote_x.Common.Text.{Text, text_eq, text_beq_iff}
use remote_x.Common.Ids.{parse}
use remote_x.Float.{Float}
use remote_x.Map
use remote_x.Map.Laws.{lookup-remove, lookup-insert}
use remote_x.Server.State.{Conn, Session, Hub, Ended, Started, ConnectFailure, pending, busy}
use remote_x.Server.Hub.{end_locked}
use remote_x.Server.Hub.Connect.{
  throttle, find_target, replace_own, fresh_session, open_session, connect_to, connect_from,
  connect,
}
use remote_x.Server.Hub.Inv.{Inv}
use remote_x.Server.Hub.Preserve.{SameBook, SameBook-Inv}
use remote_x.Server.Hub.Connect.Steps.{throttle-SameBook, find_target-SameBook, find_target-found}

module _ (fl : Float) where
  open fl use {F}

  -- The request passed every check up to the one for a free slot.
  pub record Reaches (viewer target : Text) (sid now : ℕ) (h : Hub F) : Type 0 where
    pub vc : Conn
    pub h1 : Hub F
    pub id : Text
    pub hc : Conn
    pub viewer_online : Map.lookup viewer h.devices ≡ some vc
    pub book : SameBook h h1
    pub parsed : parse target ≡ some id
    pub apart : id ≢ viewer
    pub host_online : Map.lookup id h.devices ≡ some hc
    pub accepting : hc.incoming_enabled ≡ true
    pub result :
        connect fl viewer target sid now h
        ≡ open_session fl viewer vc id hc sid now
            (replace_own viewer h1).0
            (replace_own viewer h1).1

  connect-Reaches :
      (viewer target : Text) (sid now : ℕ) (h : Hub F) (st : Started)
      → (connect fl viewer target sid now h).0 ≡ ok st
      → Reaches viewer target sid now h
  unfolding connect connect_to
  connect-Reaches viewer target sid now h st success =
      elim (Option-cases (Map.lookup viewer h.devices)) [
        | inl e ↦ absurd (ground (arith, e, success))
        | inr (vc, e) ↦
            throttled vc e (throttle viewer vc.ip now h) refl (throttle-SameBook viewer vc.ip now h)
      ]
    where
      found :
          (vc : Conn)
          → Map.lookup viewer h.devices ≡ some vc
          → (h1 : Hub F) → throttle viewer vc.ip now h ≡ (none, h1)
          → SameBook h h1
          → (r : Result (Text × Conn) ConnectFailure × Hub F)
          → find_target viewer vc.ip target now h1 ≡ r
          → SameBook h1 r.1
          → Reaches viewer target sid now h
      found vc e h1 q b (err f, h2) p b2 = absurd (ground (arith, e, q, p, success))
      found vc e h1 q b (ok (id, hc), h2) p b2 =
          let f = find_target-found viewer vc.ip target now h1 id hc (ground (arith, p)) in
          record {
            vc = vc;
            h1 = h2;
            id = id;
            hc = hc;
            viewer_online = e;
            book = record {
              devices = b2.devices ∙ b.devices;
              sessions = b2.sessions ∙ b.sessions;
              in_session = b2.in_session ∙ b.in_session;
              cfg = b2.cfg ∙ b.cfg;
            };
            parsed = f.0;
            apart = f.1;
            host_online = ground (arith, b.devices);
            accepting = f.3;
            result = rw (e, connect) (rw (q, connect_from) (rw (p, connect_to)));
          }

      throttled :
          (vc : Conn)
          → Map.lookup viewer h.devices ≡ some vc
          → (r : Option ConnectFailure × Hub F) → throttle viewer vc.ip now h ≡ r
          → SameBook h r.1
          → Reaches viewer target sid now h
      throttled vc e (some f, h1) q b = absurd (ground (arith, e, q, success))
      throttled vc e (none, h1) q b =
          found vc e h1 q b (find_target viewer vc.ip target now h1) refl
            (find_target-SameBook viewer vc.ip target now h1)

  -- The session that a granted request opens, and what the viewer is told of the host.
  pub record IsOpened (viewer id : Text) (vc hc : Conn) (sid : ℕ) (st : Started) (h' : Hub F)
      : Type 0 where
    pub s : Session F
    pub live : Map.lookup sid h'.sessions ≡ some s
    pub its_viewer : s.viewer ≡ viewer
    pub its_host : s.host ≡ id
    pub is_pending : s.mode ≡ pending
    pub viewer_booked : Map.lookup viewer h'.in_session ≡ some sid
    pub host_booked : Map.lookup id h'.in_session ≡ some sid
    pub names_it : st.session ≡ sid
    pub reaches_host : st.host_tx ≡ hc.tx
    pub discloses : st.host_candidates ≡ (if nat_beq hc.ip vc.ip then hc.candidates else [])

  open_session-IsOpened :
      (viewer id : Text) (vc hc : Conn) (sid now : ℕ) (old : Option Ended) (h : Hub F)
      (st : Started)
      → (open_session fl viewer vc id hc sid now old h).0 ≡ ok st
      → IsOpened viewer id vc hc sid st (open_session fl viewer vc id hc sid now old h).1
        × (Map.lookup id h.in_session ≡ none)
        × (Map.lookup viewer h.in_session ≡ none)
  unfolding open_session
  open_session-IsOpened viewer id vc hc sid now old h st e = (
    record {
      s = fresh_session fl viewer id vc.ip now h;
      live =
          ground (arith, lookup-insert sid sid (fresh_session fl viewer id vc.ip now h) h.sessions);
      its_viewer = refl;
      its_host = refl;
      is_pending = refl;
      viewer_booked = ground (
        arith,
        lookup-insert id viewer sid (Map.insert viewer sid h.in_session),
        lookup-insert viewer viewer sid h.in_session,
        beq_refl viewer,
      );
      host_booked =
          ground (arith, lookup-insert id id sid (Map.insert viewer sid h.in_session), beq_refl id);
      names_it = ground arith;
      reaches_host = ground arith;
      discloses = ground arith;
    },
    ground arith,
    ground arith,
  )

  -- A free slot in the book is one that was free before, or that the viewer's own session held.
  replace_own-free :
      (viewer d : Text) (h : Hub F) (k : ℕ)
      → Map.lookup d (replace_own viewer h).1.in_session ≡ none
      → Map.lookup d h.in_session ≡ some k
      → Inv h
      → Map.lookup viewer h.in_session ≡ some k
  unfolding replace_own end_locked
  replace_own-free viewer d h k free was v = elim (Option-cases (Map.lookup viewer h.in_session)) [
    | inl e ↦ ground (arith, e, free, was)
    | inr (old, e) ↦
        let (s, live, p) = v.consistent.owned viewer old e in
        ground (
          arith,
          v.consistent.linked old s live,
          lookup-remove s.host d (Map.remove s.viewer h.in_session),
          lookup-remove s.viewer d h.in_session,
          text_beq_iff s.host d,
          text_beq_iff s.viewer d,
        )
  ]

  -- What a granted request tells of the two devices.
  pub record Granted (viewer target : Text) (sid : ℕ) (h : Hub F) (st : Started) (h' : Hub F)
      : Type 0 where
    pub vc : Conn
    pub hc : Conn
    pub id : Text
    pub viewer_online : Map.lookup viewer h.devices ≡ some vc
    pub host_online : Map.lookup id h.devices ≡ some hc
    pub parsed : parse target ≡ some id
    pub apart : id ≢ viewer
    pub accepting : hc.incoming_enabled ≡ true
    pub opened : IsOpened viewer id vc hc sid st h'
    pub host_free :
        (k : ℕ) → Map.lookup id h.in_session ≡ some k → Map.lookup viewer h.in_session ≡ some k

  -- In a consistent hub a request is granted only to an online viewer, for another device that is
  -- online, takes calls and is in no session but one that the viewer is in. The host's addresses are
  -- disclosed only to a viewer at the same address, and both devices are then booked for a pending
  -- session between them.
  pub connect-Granted :
      (viewer target : Text) (sid now : ℕ) (h : Hub F) (st : Started)
      → Inv h
      → (connect fl viewer target sid now h).0 ≡ ok st
      → Granted viewer target sid h st (connect fl viewer target sid now h).1
  connect-Granted viewer target sid now h st v e =
      let r = connect-Reaches viewer target sid now h st e in
      let (before, h2) = replace_own viewer r.h1 in
      let (o, fi, fv) =
        open_session-IsOpened viewer r.id r.vc r.hc sid now before h2 st
          (ap (λ (x : Result Started ConnectFailure × Hub F). x.0) (sym r.result) ∙ e) in
      record {
        vc = r.vc;
        hc = r.hc;
        id = r.id;
        viewer_online = r.viewer_online;
        host_online = r.host_online;
        parsed = r.parsed;
        apart = r.apart;
        accepting = r.accepting;
        opened = rw r.result o;
        host_free = λ k q.
            sym (ap (Map.lookup viewer) r.book.in_session)
            ∙ replace_own-free viewer r.id r.h1 k fi (ap (Map.lookup r.id) r.book.in_session ∙ q)
                (SameBook-Inv r.book v);
      }

  -- A request that passes every check comes to the search for a free slot.
  connect-steps :
      (viewer target id : Text) (vc hc : Conn) (sid now : ℕ) (h : Hub F)
      → Map.lookup viewer h.devices ≡ some vc
      → (throttle viewer vc.ip now h).0 ≡ none
      → parse target ≡ some id
      → id ≢ viewer
      → Map.lookup id h.devices ≡ some hc
      → hc.incoming_enabled ≡ true
      → connect fl viewer target sid now h
        ≡ open_session fl viewer vc id hc sid now
            (replace_own viewer (throttle viewer vc.ip now h).1).0
            (replace_own viewer (throttle viewer vc.ip now h).1).1
  unfolding connect connect_to find_target
  connect-steps viewer target id vc hc sid now h vo pass parsed apart ho acc =
      ground (arith, throttle-SameBook viewer vc.ip now h, text_beq_iff id viewer)

  busy-drops :
      (viewer id : Text) (vc hc : Conn) (sid now old other : ℕ) (s : Session F) (h : Hub F)
      → Map.lookup viewer h.in_session ≡ some old
      → Map.lookup old h.sessions ≡ some s
      → s.viewer ≡ viewer
      → s.host ≢ id
      → Map.lookup id h.in_session ≡ some other
      → id ≢ viewer
      → let r =
          open_session fl viewer vc id hc sid now
            (replace_own viewer h).0
            (replace_own viewer h).1 in
        (r.0 ≡ err busy)
        × (Map.lookup old r.1.sessions ≡ none)
        × (Map.lookup s.host r.1.in_session ≡ none)
  unfolding replace_own open_session end_locked
  busy-drops viewer id vc hc sid now old other s h mine live own host_apart taken apart = ground (
    arith,
    beq_refl viewer,
    beq_refl s.host,
    lookup-remove s.host id (Map.remove s.viewer h.in_session),
    lookup-remove s.viewer id h.in_session,
    lookup-remove s.host s.host (Map.remove s.viewer h.in_session),
    lookup-remove old old h.sessions,
    text_beq_iff s.host id,
    text_beq_iff s.viewer id,
  )

  -- A refusal may come too late: where the viewer's own session is ended to make room, and the
  -- target turns out to be in another one, the request is refused as busy, the viewer's session is
  -- gone, and the summary that would tell its host is dropped.
  pub connect_busy-drops :
      (viewer target id : Text) (vc hc : Conn) (sid now old other : ℕ) (s : Session F) (h : Hub F)
      → Map.lookup viewer h.devices ≡ some vc
      → (throttle viewer vc.ip now h).0 ≡ none
      → parse target ≡ some id
      → id ≢ viewer
      → Map.lookup id h.devices ≡ some hc
      → hc.incoming_enabled ≡ true
      → Map.lookup viewer h.in_session ≡ some old
      → Map.lookup old h.sessions ≡ some s
      → s.viewer ≡ viewer
      → s.host ≢ id
      → Map.lookup id h.in_session ≡ some other
      → ((connect fl viewer target sid now h).0 ≡ err busy)
        × (Map.lookup old (connect fl viewer target sid now h).1.sessions ≡ none)
        × (Map.lookup s.host (connect fl viewer target sid now h).1.in_session ≡ none)
  connect_busy-drops viewer target id vc hc sid now old other s h vo pass parsed apart ho acc mine
        live own host_apart taken =
      let b = throttle-SameBook viewer vc.ip now h in
      let h1 : Hub F = (throttle viewer vc.ip now h).1 in
      rw (connect-steps viewer target id vc hc sid now h vo pass parsed apart ho acc) (
        busy-drops viewer id vc hc sid now old other s h1 (ground (arith, b.in_session))
          (ground (arith, b.sessions)) own host_apart (ground (arith, b.in_session)) apart)
