-- ===== src/Server/Ws/Auth.antt =====
-- server/src/ws.rs: what authenticates a connection.
use remote_x.Prelude.{
  ℕ, ◌≡◌, refl, Bool, true, false, ◌||◌, not, List, if_both, if◌then◌else◌, arith, ◌⊎◌, inl, inr,
}
use remote_x.Float.{Float}
use remote_x.Common.Text.{Text}
use remote_x.Common.Signaling.{register, auth}
use remote_x.Server.State.{Hub}
use remote_x.Server.Hub.{record_auth_failure, allow_register}
use remote_x.Server.Ws.{
  Env, Effect, Next, goes_on, stops, authenticated, Input, message, malformed, closed, Inserted,
  valid_input, right_secret, register_device, auth_step,
}

module _ (env : Env) (fl : Float) (ip now : ℕ) (draws : List (Text × List ℕ × Inserted)) where
  open fl use {F}

  -- What the outcome of a step tells of what was received, and what the hub has counted.
  unfoldable pub IsVouched : Input → Hub F → Next × List Effect × Hub F → Type 0
  IsVouched input h (authenticated who, effects, h') =
      (secret : List ℕ) × ((input
          ≡ message (auth who.id secret who.version who.name who.candidates who.incoming_enabled))
        × (right_secret env who.id secret ≡ true)
        × (valid_input env who.name who.version who.candidates ≡ true)
        × (h' ≡ h))
  IsVouched input h (goes_on, effects, h') =
      (version : Text) × ((input ≡ message (register version))
        × ((allow_register ip now h).0 ≡ true)
        × (h' ≡ (allow_register ip now h).1))
  IsVouched input h (stops, effects, h') =
      ((input ≡ closed) × (h' ≡ h))
      ⊎ ((h' ≡ (record_auth_failure ip now h).1)
          ⊎ ((version : Text) × ((input ≡ message (register version))
                × (h' ≡ (allow_register ip now h).1))))

  after :
      (version : Text) (h : Hub F) (done : Bool × List Effect)
      → (allow_register ip now h).0 ≡ true
      → IsVouched
          (message (register version))
          h
          (if done.0 then goes_on else stops, done.1, (allow_register ip now h).1)
  unfolding IsVouched
  after version h (true, effects) e = (version, (refl, e, refl))
  after version h (false, effects) e = inr (inr (version, (refl, refl)))

  -- A connection is authenticated by a message with the right secret and acceptable data alone, and
  -- then the hub is as it was; it goes on only after a registration that the hub allowed; and where it
  -- stops, nothing more came, or the hub has recorded a failure of the address, or it was a request to
  -- register, and the hub is as `allow_register` leaves it.
  pub auth_step-IsVouched :
      (input : Input) (h : Hub F) → IsVouched input h (auth_step env fl ip now draws input h)
  unfolding auth_step IsVouched
  auth_step-IsVouched closed h = inl (refl, refl)
  auth_step-IsVouched malformed h = inr (inl refl)
  auth_step-IsVouched (message (register version)) h =
      let r : Bool × Hub F = allow_register ip now h in
      let P : Next × List Effect × Hub F → Type 0 = IsVouched (message (register version)) h in
      if_both P (not r.0) (λ e. inr (inr (version, (refl, refl))))
        (λ e.
          let done : Bool × List Effect = register_device 20 ip draws in
          after version h done (ground (arith, e)))
  auth_step-IsVouched (message (auth id secret version name candidates enabled)) h =
      if_both (IsVouched (message (auth id secret version name candidates enabled)) h)
        (not (right_secret env id secret) || not (valid_input env name version candidates))
        (λ e. inr (inl refl)) (λ e. (secret, (refl, ground (arith, e), ground (arith, e), refl)))
  auth_step-IsVouched (message m) h = inr (inl refl)
