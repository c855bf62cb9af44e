-- ===== src/Server/Ws.antt =====
-- server/src/ws.rs: one connection of a client: the phase in which it authenticates, and the loop in
-- which it speaks for its device. A step has what was received and when, and gives the new hub and
-- what it does besides, in order. The database, the draw of ids, the hash of a secret and the test
-- of an address are parameters; `Instant`s are far enough from 0 for the subtraction of a minute.
pub mod Calls
pub mod Auth
mod Tests
use remote_x.Prelude.{
  ℕ, zero, suc, ◌+◌, ◌-◌, ◌*◌, ◌%◌, ◌^◌, Bool, true, false, ◌&&◌, ◌||◌, not, List, [], ◌∷◌, ◌++◌,
  map, Option, none, some, ltb, leb, any, retain, nat_beq, if◌then◌else◌, length, take,
}
use remote_x.Prelude.Eq.{◌==◌, nat_eq}
use remote_x.Prelude.Result.{Result, ok, err}
use remote_x.Float.{Float}
use remote_x.Common.Text.{Text, codes, byte_len, text_eq}
use remote_x.Common.Signaling.{
  ClientToServer, register, auth, connect, relay, end_session, session_mode, query_presence,
  set_incoming_enabled, ping, ServerToClient, registered, auth_ok, auth_failed, incoming,
  session_ready, connect_failed, presence, pong, error, max_name_len, max_candidates,
}
use remote_x.Common.Signaling
use remote_x.Files.Names.{is_control}
use remote_x.Server.State.{Conn, Hub, Ended, Started, ConnectFailure, is_some, one, seconds}
use remote_x.Server.Hub
use remote_x.Server.Hub.{
  count_error, next_conn_id, ip_banned_for_auth, record_auth_failure, allow_register, attach,
  update_incoming, detach, set_mode, end_by, report_password_failure,
}
use remote_x.Server.Hub.Connect
use remote_x.Server.Hub.Relay.{RelayRoute, relay_route}

abbrev pub max_frame : ℕ
max_frame = 8 * 1024 * 1024

-- The answer of the database to a new device.
pub data Inserted : Type 0 where
  is_new is_taken has_failed : Inserted

pub record Env : Type 0 where
  -- `hash_secret` with the server's own secret
  pub hash_secret : List ℕ → List ℕ
  pub device_hash : Text → Option (List ℕ)
  pub is_address : Text → Bool

-- What a connection does besides calling the hub.
pub data Effect : Type 0 where
  reply : ServerToClient → Effect
  -- to another connection's outbox, after a delay in nanoseconds
  forward : ℕ → ℕ → ServerToClient → Effect
  kicks : ℕ → Effect
  -- `finish`: the peers are told and the end is stored
  finished : Ended → Effect
  stores_start : ℕ → Text → Text → Effect
  log_attempt : ℕ → Text → Bool → Option Text → Effect

unfoldable pub valid_name : Text → Bool
unfolding byte_len is_control
valid_name name = not (name == []) && leb (byte_len name) max_name_len && not (any is_control name)

-- What authenticates: the device, its name, its addresses and whether it takes sessions.
pub record Identity : Type 0 where
  pub id : Text
  pub name : Text
  pub candidates : List Text
  pub incoming_enabled : Bool
  pub version : Text

-- What is next in the phase of authentication.
pub data Next : Type 0 where
  goes_on stops : Next
  authenticated : Identity → Next

-- What arrives: a message, a frame that cannot be decoded, or nothing more.
pub data Input : Type 0 where
  message : ClientToServer → Input
  malformed closed : Input

-- `for _ in 0..20`: draws of an id and a secret, each with the database's answer.
unfoldable pub register_device : ℕ → ℕ → List (Text × List ℕ × Inserted) → Bool × List Effect
register_device zero ip draws = (false, [])
register_device (suc tries) ip [] = (false, [])
register_device (suc tries) ip ((id, secret, is_new) ∷ draws) =
    (true, log_attempt ip (codes "register") true (some id) ∷ reply (registered id secret) ∷ [])
register_device (suc tries) ip ((id, secret, is_taken) ∷ draws) = register_device tries ip draws
register_device (suc tries) ip ((id, secret, has_failed) ∷ draws) = (false, [])

module _ (env : Env) where
  unfoldable pub valid_input : Text → Text → List Text → Bool
  unfolding valid_name
  valid_input device_name version candidates =
      valid_name device_name
      && leb (byte_len version) 32
      && leb (length candidates) max_candidates
      && not (any (λ c. not (env.is_address c)) candidates)

  -- The secret is right: the device is known and the hash is the stored one.
  unfoldable pub right_secret : Text → List ℕ → Bool
  right_secret id secret = elim (env.device_hash id) [
    | none ↦ false
    | some hash ↦ hash == env.hash_secret secret
  ]

  module _ (fl : Float) where
    open fl use {F}

    unfoldable pub auth_step :
        ℕ → ℕ → List (Text × List ℕ × Inserted) → Input → Hub F → Next × List Effect × Hub F
    unfolding register_device valid_input right_secret
    auth_step ip now draws closed h = (stops, [], h)
    auth_step ip now draws malformed h = (stops, [], (record_auth_failure ip now h).1)
    auth_step ip now draws (message (register version)) h =
        let (allowed, h') = allow_register ip now h in
        if not allowed
        then (stops, reply (auth_failed (codes "rate limited")) ∷ [], h')
        else (let (done, effects) = register_device 20 ip draws in
            (if done then goes_on else stops, effects, h'))
    auth_step ip now draws (message (auth id secret version name candidates enabled)) h =
        if not (right_secret id secret) || not (valid_input name version candidates)
        then (
          stops,
          log_attempt ip (codes "auth") false (some id)
              ∷ reply (auth_failed (codes "invalid credentials"))
              ∷ [],
          (record_auth_failure ip now h).1,
        )
        else (
          authenticated (record {
            id = id;
            name = name;
            candidates = candidates;
            incoming_enabled = enabled;
            version = version;
          }),
          log_attempt ip (codes "auth") true (some id) ∷ [],
          h,
        )
    auth_step ip now draws (message m) h = (stops, [], (record_auth_failure ip now h).1)

-- The state of the main loop.
pub record Online : Type 0 where
  pub id : Text
  pub conn_id : ℕ
  pub ip : ℕ
  pub window_start : ℕ
  pub window_count : ℕ
  pub last_presence : ℕ

-- What the loop waits for.
pub data Event : Type 0 where
  receives : Input → Event
  closing kicked : Event

unfoldable pub is_relay : ClientToServer → Bool
is_relay (relay session data') = true
is_relay m = false

-- One control message more, in this second or in a new one.
unfoldable pub counted : ℕ → Online → Online
counted now o =
    if ltb (seconds 1) (now - o.window_start)
    then record o { window_start = now; window_count = 1 }
    else record o { window_count = (o.window_count + 1) % 2 ^ 32 }

-- `replace(' ', "")`
unfoldable pub spaceless : Text → Text
spaceless t = retain (λ c. not (nat_beq c 32)) t

module _ (fl : Float) where
  open fl use {F}

  abbrev pub StepOutcome : Type 0
  StepOutcome = Bool × Online × List Effect × Hub F

  -- After the authentication.
  unfoldable pub go_online : ℕ → ℕ → ℕ → ℕ → Identity → Hub F → Online × List Effect × Hub F
  go_online ip tx kick now who h =
      let (conn_id, h1) = next_conn_id h in
      let conn : Conn = record {
        conn_id = conn_id;
        tx = tx;
        kick = kick;
        name = who.name;
        ip = ip;
        candidates = who.candidates;
        incoming_enabled = who.incoming_enabled;
      } in
      let (old, h2) = attach who.id conn h1 in
      (
        record {
          id = who.id;
          conn_id = conn_id;
          ip = ip;
          window_start = now;
          window_count = 0;
          last_presence = now - seconds 60;
        },
        (elim old [ none ↦ [] | some k ↦ kicks k ∷ [] ]) ++ (reply (auth_ok ip) ∷ []),
        h2,
      )

  unfoldable pub on_connect : ℕ → ℕ → Text → Online → Hub F → List Effect × Hub F
  unfolding spaceless
  on_connect session now target o h =
      let (r, h') = Connect.connect fl o.id target session now h in
      (
        elim r [
          | err reason ↦ reply (connect_failed target reason) ∷ []
          | ok s ↦
              map finished (one s.replaced)
              ++ (stores_start s.session o.id (spaceless target)
                  ∷ forward s.host_tx 0 (incoming s.session o.id s.viewer_name s.same_network)
                  ∷ reply (session_ready s.session s.host_name s.host_candidates s.same_network)
                  ∷ [])
        ],
        h',
      )

  unfoldable pub on_end : ℕ → Online → Hub F → List Effect × Hub F
  on_end session o h = let (ended, h') = end_by session o.id h in (map finished (one ended), h')

  -- `stalls`: the peer's outbox did not take the frame within 15 seconds.
  unfoldable pub on_relay : Bool → ℕ → List ℕ → ℕ → Online → Hub F → List Effect × Hub F
  unfolding on_end
  on_relay stalls session bytes now o h =
      let (route, h') = relay_route fl session o.id (length bytes) now h in
      elim route [
        | none ↦ ([], h')
        | some r ↦
            if stalls
            then on_end session o h'
            else (forward r.tx r.delay (Signaling.relayed session bytes) ∷ [], h')
      ]

  unfoldable pub on_end_session : ℕ → Bool → ℕ → Online → Hub F → List Effect × Hub F
  unfolding on_end
  on_end_session session failed now o h =
      if failed
      then (let (report, h1) = report_password_failure session o.id now h in
          let (effects, h2) = on_end session o h1 in
          (
            (elim report [
              | none ↦ []
              | some (viewer, banned) ↦ log_attempt o.ip (codes "password") false (some viewer) ∷ []
            ])
                ++ effects,
            h2,
          ))
      else on_end session o h

  -- A message of the main loop; `session` is the id that a connect would draw.
  unfoldable pub handle : ℕ → Bool → ClientToServer → ℕ → Online → Hub F → StepOutcome
  unfolding on_connect on_relay on_end_session
  handle session stalls ping now o h = (true, o, reply pong ∷ [], h)
  handle session stalls (set_incoming_enabled v) now o h =
      (true, o, [], update_incoming o.id o.conn_id v h)
  handle session stalls (query_presence ids) now o h =
      if ltb 64 (length ids) || ltb (now - o.last_presence) (seconds 2)
      then (true, o, [], h)
      else (true, record o { last_presence = now }, reply (presence (Hub.presence ids h)) ∷ [], h)
  handle session stalls (connect target) now o h =
      let (effects, h') = on_connect session now target o h in (true, o, effects, h')
  handle session stalls (relay s bytes) now o h =
      if ltb max_frame (length bytes)
      then (false, o, [], h)
      else (let (effects, h') = on_relay stalls s bytes now o h in (true, o, effects, h'))
  handle session stalls (session_mode s direct) now o h =
      (true, o, [], set_mode s o.id direct now h)
  handle session stalls (end_session s failed) now o h =
      let (effects, h') = on_end_session s failed now o h in (true, o, effects, h')
  handle session stalls (register version) now o h = (false, o, [], h)
  handle session stalls (auth id secret version name candidates enabled) now o h = (false, o, [], h)

  -- One turn of the loop: whether it goes on.
  unfoldable pub main_step : ℕ → Bool → Event → ℕ → Online → Hub F → StepOutcome
  unfolding counted is_relay handle
  main_step session stalls closing now o h = (false, o, [], h)
  main_step session stalls kicked now o h =
      (false, o, reply (error (codes "signed in from another location")) ∷ [], h)
  main_step session stalls (receives closed) now o h = (false, o, [], h)
  main_step session stalls (receives malformed) now o h = (false, o, [], count_error h)
  main_step session stalls (receives (message m)) now o h =
      if is_relay m
      then handle session stalls m now o h
      else (let o' = counted now o in
          if ltb 60 o'.window_count then (false, o', [], h) else handle session stalls m now o' h)

  -- After the loop.
  unfoldable pub leave : Online → Hub F → List Effect × Hub F
  leave o h = let (ended, h') = detach o.id o.conn_id h in (map finished ended, h')
