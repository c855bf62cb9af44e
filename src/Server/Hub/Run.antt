-- ===== src/Server/Hub/Run.antt =====
-- The hub over time: the calls that connections and timers make, in the order in which they take the
-- lock.
use remote_x.Prelude.{ℕ, ◌≡◌, Bool, none, List, [], ◌∷◌}
use remote_x.Prelude.Eq.{nat_eq}
use remote_x.Float.{Float}
use remote_x.Common.Text.{Text}
use remote_x.Map
use remote_x.Server.State.{Conn, Hub, Config}
use remote_x.Server.Hub.{
  new, next_conn_id, ip_banned_for_auth, record_auth_failure, allow_register, admin_locked,
  admin_failure, count_error, attach, update_incoming, detach, set_mode, end_by,
  report_password_failure, sweep,
}
use remote_x.Server.Hub.Connect.{connect}
use remote_x.Server.Hub.Connect.Outcome.{connect-Inv}
use remote_x.Server.Hub.Relay.{relay_route}
use remote_x.Server.Hub.Inv.{Inv, new-Inv}
use remote_x.Server.Hub.Preserve.{
  SameBook-Inv, attach-Inv, update_incoming-Inv, detach-Inv, set_mode-Inv, end_by-Inv,
  report_password_failure-SameBook, sweep-Inv, limiter_calls-SameBook,
}
use remote_x.Server.Hub.Access.{relay_route-Inv}

-- Calls take the time last, and `connects` the session id that is drawn before it.
pub data Call : Type 0 where
  attaches : Text → Conn → Call
  updates : Text → ℕ → Bool → Call
  detaches : Text → ℕ → Call
  connects : Text → Text → ℕ → ℕ → Call
  relays : ℕ → Text → ℕ → ℕ → Call
  settles : ℕ → Text → Bool → ℕ → Call
  ends : ℕ → Text → Call
  reports : ℕ → Text → ℕ → Call
  sweeps : ℕ → Call
  numbers faults : Call
  asks_auth fails_auth registers asks_admin fails_admin : ℕ → ℕ → Call

module _ (fl : Float) where
  open fl use {F}

  unfoldable pub step : Hub F → Call → Hub F
  step h (attaches id conn) = (attach id conn h).1
  step h (updates id conn_id b) = update_incoming id conn_id b h
  step h (detaches id conn_id) = (detach id conn_id h).1
  step h (connects viewer target sid now) = (connect fl viewer target sid now h).1
  step h (relays session from len now) = (relay_route fl session from len now h).1
  step h (settles session from b now) = set_mode session from b now h
  step h (ends session by) = (end_by session by h).1
  step h (reports session host now) = (report_password_failure session host now h).1
  step h (sweeps now) = (sweep now h).1
  step h faults = count_error h
  step h numbers = (next_conn_id h).1
  step h (asks_auth ip now) = (ip_banned_for_auth ip now h).1
  step h (fails_auth ip now) = (record_auth_failure ip now h).1
  step h (registers ip now) = (allow_register ip now h).1
  step h (asks_admin ip now) = (admin_locked ip now h).1
  step h (fails_admin ip now) = admin_failure ip now h

  unfoldable pub run : Hub F → List Call → Hub F
  run h [] = h
  run h (c ∷ cs) = run (step h c) cs

  -- The 128-bit ids that are drawn do not collide with a live session's.
  abbrev pub IsFresh : Hub F → Call → Type 0
  IsFresh h (connects viewer target sid now) = Map.lookup sid h.sessions ≡ none
  IsFresh h _ = Unit

  abbrev pub AreFresh : Hub F → List Call → Type 0
  AreFresh h [] = Unit
  AreFresh h (c ∷ cs) = IsFresh h c × AreFresh (step h c) cs

  step-Inv : (h : Hub F) (c : Call) → IsFresh h c → Inv h → Inv (step h c)
  unfolding step
  step-Inv h (attaches id conn) f v = attach-Inv id conn h v
  step-Inv h (updates id conn_id b) f v = update_incoming-Inv id conn_id b h v
  step-Inv h (detaches id conn_id) f v = detach-Inv id conn_id h v
  step-Inv h (connects viewer target sid now) f v = connect-Inv fl viewer target sid now h v f
  step-Inv h (relays session from len now) f v = relay_route-Inv fl session from len now h v
  step-Inv h (settles session from b now) f v = set_mode-Inv session from b now h v
  step-Inv h (ends session by) f v = end_by-Inv session by h v
  step-Inv h (reports session host now) f v =
      SameBook-Inv (report_password_failure-SameBook session host now h) v
  step-Inv h (sweeps now) f v = sweep-Inv now h v
  step-Inv h faults f v = SameBook-Inv (limiter_calls-SameBook 0 0 h).6 v
  step-Inv h numbers f v = SameBook-Inv (limiter_calls-SameBook 0 0 h).5 v
  step-Inv h (asks_auth ip now) f v = SameBook-Inv (limiter_calls-SameBook ip now h).0 v
  step-Inv h (fails_auth ip now) f v = SameBook-Inv (limiter_calls-SameBook ip now h).1 v
  step-Inv h (registers ip now) f v = SameBook-Inv (limiter_calls-SameBook ip now h).2 v
  step-Inv h (asks_admin ip now) f v = SameBook-Inv (limiter_calls-SameBook ip now h).3 v
  step-Inv h (fails_admin ip now) f v = SameBook-Inv (limiter_calls-SameBook ip now h).4 v

  run-Inv : (h : Hub F) (cs : List Call) → AreFresh h cs → Inv h → Inv (run h cs)
  unfolding run
  run-Inv h [] f v = v
  run-Inv h (c ∷ cs) f v = run-Inv (step h c) cs f.1 (step-Inv h c f.0 v)

  -- After any calls on a new hub, as long as no drawn session id is in use, the invariant holds: the
  -- two devices of each session are different, online and booked for it, a booked device is in the
  -- session that it is booked for, so no device is in two sessions, and the sessions are within their
  -- limit.
  pub run-new-Inv : (cfg : Config) (cs : List Call) → AreFresh (new cfg) cs → Inv (run (new cfg) cs)
  run-new-Inv cfg cs f = run-Inv (new cfg) cs f (new-Inv cfg)
