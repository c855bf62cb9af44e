-- ===== src/Server/Ws/Calls.antt =====
-- server/src/ws.rs: what a connection may do to the hub.
use remote_x.Prelude.{
  ℕ, ◌-◌, ◌≡◌, refl, subst, Bool, ◌||◌, List, [], ◌∷◌, ltb, All, if_both, option_both, length,
}
use remote_x.Prelude.Eq.{nat_eq}
use remote_x.Float.{Float}
use remote_x.Common.Text.{Text, text_eq}
use remote_x.Common.Signaling.{
  ClientToServer, register, auth, connect, relay, end_session, session_mode, query_presence,
  set_incoming_enabled, ping,
}
use remote_x.Server.State.{Hub, seconds}
use remote_x.Server.Hub.Relay.{relay_route}
use remote_x.Server.Hub.Run.{
  Call, updates, detaches, connects, relays, settles, ends, reports, faults, step, run,
}
use remote_x.Server.Ws.{
  Effect, message, malformed, closed, Online, Event, receives, closing, kicked, counted, is_relay,
  StepOutcome, on_connect, on_end, on_relay, on_end_session, handle, main_step, max_frame,
}

-- A call in the name of the connection's own device, or the count of a message that cannot be read.
unfoldable pub IsOwn : Text × ℕ → Call → Type 0
IsOwn (own, number) (updates id conn_id b) = (id ≡ own) × (conn_id ≡ number)
IsOwn (own, number) (detaches id conn_id) = (id ≡ own) × (conn_id ≡ number)
IsOwn (own, number) (connects viewer target sid now) = viewer ≡ own
IsOwn (own, number) (relays session from len now) = from ≡ own
IsOwn (own, number) (settles session from b now) = from ≡ own
IsOwn (own, number) (ends session by) = by ≡ own
IsOwn (own, number) (reports session host now) = host ≡ own
IsOwn (own, number) faults = Unit
IsOwn (own, number) c = ⊥

abbrev who_of : Online → Text × ℕ
who_of o = (o.id, o.conn_id)

module _ (fl : Float) where
  open fl use {F}

  -- The hub is what some calls in the connection's own name make of it.
  unfoldable pub IsReached : Text × ℕ → Hub F → Hub F → Type 0
  unfolding IsOwn
  IsReached who h h' = (cs : List Call) × ((h' ≡ run fl h cs) × All (IsOwn who) cs)

  none_made : (o : Online) (h : Hub F) → IsReached (who_of o) h h
  unfolding IsReached run
  none_made o h = ([], (refl, tt))

  on_end-IsReached :
      (session : ℕ) (o : Online) (h : Hub F) → IsReached (who_of o) h (on_end fl session o h).1
  unfolding IsReached run step on_end IsOwn
  on_end-IsReached session o h = (ends session o.id ∷ [], (refl, (refl, tt)))

  on_connect-IsReached :
      (session now : ℕ) (target : Text) (o : Online) (h : Hub F)
      → IsReached (who_of o) h (on_connect fl session now target o h).1
  unfolding IsReached run step on_connect IsOwn
  on_connect-IsReached session now target o h =
      (connects o.id target session now ∷ [], (refl, (refl, tt)))

  on_relay-IsReached :
      (stalls : Bool) (session : ℕ) (bytes : List ℕ) (now : ℕ) (o : Online) (h : Hub F)
      → IsReached (who_of o) h (on_relay fl stalls session bytes now o h).1
  unfolding IsReached run step on_relay on_end IsOwn
  on_relay-IsReached stalls session bytes now o h =
      let P : List Effect × Hub F → Type 0 = λ r. IsReached (who_of o) h r.1 in
      let c : Call = relays session o.id (length bytes) now in
      option_both P (relay_route fl session o.id (length bytes) now h).0
        (λ e. (c ∷ [], (refl, (refl, tt))))
        (λ r e.
          if_both P stalls (λ x. (c ∷ ends session o.id ∷ [], (refl, (refl, (refl, tt)))))
            (λ x. (c ∷ [], (refl, (refl, tt)))))

  on_end_session-IsReached :
      (session : ℕ) (told : Bool) (now : ℕ) (o : Online) (h : Hub F)
      → IsReached (who_of o) h (on_end_session fl session told now o h).1
  unfolding IsReached run step on_end_session on_end IsOwn
  on_end_session-IsReached session told now o h =
      if_both (λ (r : List Effect × Hub F). IsReached (who_of o) h r.1) told
        (λ e. (reports session o.id now ∷ ends session o.id ∷ [], (refl, (refl, (refl, tt)))))
        (λ e. (ends session o.id ∷ [], (refl, (refl, tt))))

  handle-IsReached :
      (session : ℕ) (stalls : Bool) (m : ClientToServer) (now : ℕ) (o : Online) (h : Hub F)
      → IsReached (who_of o) h (handle fl session stalls m now o h).3
  unfolding handle IsReached run step IsOwn
  handle-IsReached session stalls ping now o h = none_made o h
  handle-IsReached session stalls (set_incoming_enabled v) now o h =
      (updates o.id o.conn_id v ∷ [], (refl, ((refl, refl), tt)))
  handle-IsReached session stalls (query_presence ids) now o h =
      if_both (λ (r : StepOutcome fl). IsReached (who_of o) h r.3)
        (ltb 64 (length ids) || ltb (now - o.last_presence) (seconds 2)) (λ e. none_made o h)
        (λ e. none_made o h)
  handle-IsReached session stalls (connect target) now o h =
      on_connect-IsReached session now target o h
  handle-IsReached session stalls (relay s bytes) now o h =
      if_both (λ (r : StepOutcome fl). IsReached (who_of o) h r.3) (ltb max_frame (length bytes))
        (λ e. none_made o h) (λ e. on_relay-IsReached stalls s bytes now o h)
  handle-IsReached session stalls (session_mode s direct) now o h =
      (settles s o.id direct now ∷ [], (refl, (refl, tt)))
  handle-IsReached session stalls (end_session s told) now o h =
      on_end_session-IsReached s told now o h
  handle-IsReached session stalls (register version) now o h = none_made o h
  handle-IsReached session stalls (auth id secret version name candidates enabled) now o h =
      none_made o h

  counted-who : (now : ℕ) (o : Online) → who_of (counted now o) ≡ who_of o
  unfolding counted
  counted-who now o =
      if_both (λ (o' : Online). who_of o' ≡ who_of o) (ltb (seconds 1) (now - o.window_start))
        (λ e. refl) (λ e. refl)

  -- Whatever a client sends, a turn of its loop does to the hub only what some calls of the hub do
  -- that are made in the name of the device it authenticated as, with its own connection's number, or
  -- that count a message that cannot be read.
  pub main_step-IsReached :
      (session : ℕ) (stalls : Bool) (e : Event) (now : ℕ) (o : Online) (h : Hub F)
      → IsReached (who_of o) h (main_step fl session stalls e now o h).3
  unfolding main_step IsReached IsOwn run step
  main_step-IsReached session stalls closing now o h = none_made o h
  main_step-IsReached session stalls kicked now o h = none_made o h
  main_step-IsReached session stalls (receives closed) now o h = none_made o h
  main_step-IsReached session stalls (receives malformed) now o h = (faults ∷ [], (refl, (tt, tt)))
  main_step-IsReached session stalls (receives (message m)) now o h =
      if_both (λ (r : StepOutcome fl). IsReached (who_of o) h r.3) (is_relay m)
        (λ e. handle-IsReached session stalls m now o h)
        (λ e.
          if_both (λ (r : StepOutcome fl). IsReached (who_of o) h r.3)
            (ltb 60 (counted now o).window_count) (λ x. none_made o h)
            (λ x.
              subst (λ who. IsReached who h (handle fl session stalls m now (counted now o) h).3)
                (counted-who now o) (handle-IsReached session stalls m now (counted now o) h)))
