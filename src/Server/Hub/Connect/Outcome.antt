-- ===== src/Server/Hub/Connect/Outcome.antt =====
-- What `connect` does as a whole.
use remote_x.Prelude.{
  ℕ, ◌≡◌, ◌≢◌, refl, Option, none, some, inl, inr, arith, Option-cases, if_both, leb, ◌||◌,
}
use remote_x.Prelude.Result.{Result, ok, err}
use remote_x.Prelude.Eq.{nat_eq}
use remote_x.Common.Text.{Text, text_eq}
use remote_x.Float.{Float}
use remote_x.Map
use remote_x.Server.State.{Conn, Hub, Ended, Started, ConnectFailure, is_some, busy}
use remote_x.Server.Hub.Connect.{
  reject, throttle, find_target, replace_own, fresh_session, open_session, connect_to, connect_from,
  connect,
}
use remote_x.Server.Hub.Inv.{Inv}
use remote_x.Server.Hub.Preserve.{SameBook, SameBook-Inv}
use remote_x.Server.Hub.Connect.Steps.{
  throttle-SameBook, find_target-SameBook, find_target-found, replace_own-Replaced, opened-Inv,
}

module _ (fl : Float) where
  open fl use {F}

  abbrev Outcome : Type 0
  Outcome = Result Started ConnectFailure × Hub F

  reject-Inv : (h : Hub F) (f : ConnectFailure) → Inv h → Inv (reject h f).1
  reject-Inv h f v =
      SameBook-Inv (record { devices = refl; sessions = refl; in_session = refl; cfg = refl }) v

  open_session-Inv :
      (viewer host : Text) (vc hc : Conn) (sid now : ℕ) (old : Option Ended) (h : Hub F)
      → Inv h
      → Map.lookup sid h.sessions ≡ none
      → Map.lookup viewer h.devices ≡ some vc
      → Map.lookup host h.devices ≡ some hc
      → host ≢ viewer
      → Inv (open_session fl viewer vc host hc sid now old h).1
  unfolding open_session
  open_session-Inv viewer host vc hc sid now old h v fresh vo ho apart =
      if_both (λ (r : Outcome). Inv r.1)
        (is_some (Map.lookup host h.in_session) || is_some (Map.lookup viewer h.in_session))
        (λ _. reject-Inv h busy v)
        (λ free.
          if_both (λ (r : Outcome). Inv r.1) (leb h.cfg.max_sessions (Map.len h.sessions))
            (λ _. reject-Inv h busy v)
            (λ room.
              SameBook-Inv
                (record { devices = refl; sessions = refl; in_session = refl; cfg = refl })
                (opened-Inv fl viewer host vc hc sid now (fresh_session fl viewer host vc.ip now h)
                  h v fresh vo ho (ground arith) (ground arith) apart refl refl (ground arith))))

  connect_to-Inv :
      (viewer : Text) (vc : Conn) (sid now : ℕ) (target : Text) (h : Hub F)
      → Inv h
      → Map.lookup sid h.sessions ≡ none
      → Map.lookup viewer h.devices ≡ some vc
      → Inv (connect_to fl viewer vc sid now (find_target viewer vc.ip target now h)).1
  unfolding connect_to
  connect_to-Inv viewer vc sid now target h v fresh vo =
      go (find_target viewer vc.ip target now h) refl
        (find_target-SameBook viewer vc.ip target now h)
    where
      go :
          (r : Result (Text × Conn) ConnectFailure × Hub F)
          → find_target viewer vc.ip target now h ≡ r
          → SameBook h r.1
          → Inv (connect_to fl viewer vc sid now r).1
      go (err f, h') e b = reject-Inv h' f (SameBook-Inv b v)
      go (ok (id, hc), h') e b =
          let v' = SameBook-Inv b v in
          let p = replace_own-Replaced viewer h' v' in
          let f = find_target-found viewer vc.ip target now h id hc (ground (arith, e)) in
          open_session-Inv viewer id vc hc sid now (replace_own viewer h').0
            (replace_own viewer h').1 p.inv (p.fewer sid (ground (arith, b.sessions)))
            (ground (arith, p.devices, b.devices)) (ground (arith, p.devices, b.devices)) f.1

  -- Connecting under a fresh session id keeps the invariant, whatever comes of it.
  pub connect-Inv :
      (viewer target : Text) (sid now : ℕ) (h : Hub F)
      → Inv h
      → Map.lookup sid h.sessions ≡ none
      → Inv (connect fl viewer target sid now h).1
  unfolding connect
  connect-Inv viewer target sid now h v fresh = elim (Option-cases (Map.lookup viewer h.devices)) [
    | inl e ↦ rw (e, connect) v
    | inr (vc, e) ↦
        rw (e, connect)
          (go vc e (throttle viewer vc.ip now h) (throttle-SameBook viewer vc.ip now h))
  ]
    where
      go :
          (vc : Conn)
          → Map.lookup viewer h.devices ≡ some vc
          → (r : Option ConnectFailure × Hub F) → SameBook h r.1
          → Inv (connect_from fl viewer vc target sid now r).1
      go vc e (some f, h') b = reject-Inv h' f (SameBook-Inv b v)
      go vc e (none, h') b =
          connect_to-Inv viewer vc sid now target h' (SameBook-Inv b v) (ground (arith, b.sessions))
            (ground (arith, b.devices))
