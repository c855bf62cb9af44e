-- ===== src/Server/Hub/Tests.antt =====
-- Runs of the hub, and its theorems at concrete inputs.
use remote_x.Prelude.{
  ℕ, ◌+◌, ◌≡◌, ◌≢◌, refl, some, none, List, [], ◌∷◌, ◌⊎◌, inl, inr, true, false, arith, Has,
}
use remote_x.Prelude.Result.{err}
use remote_x.Prelude.Eq.{nat_eq}
use remote_x.Float.{thousandths}
use remote_x.Common.Text.{Text, codes, text_eq, text_beq_iff, byte_len, text_beq}
use remote_x.Common.Ids
use remote_x.Map
use remote_x.Security.Limiter
use remote_x.Server.State.{
  Conn, Session, Mode, pending, direct, Hub, Config, Started, busy, banned, invalid_id,
  rate_limited, new_limiters, seconds,
}
use remote_x.Server.Hub.{new, attach, end_by, sweep, report_password_failure}
use remote_x.Server.Hub.Connect.{
  connect, throttle, is_banned, ban_by_ip, ban_by_enumeration, find_target, replace_own,
  open_session,
}
use remote_x.Server.Hub.Connect.Success.{Granted, connect-Granted, connect_busy-drops}
use remote_x.Server.Hub.Relay.{RelayRoute, relay_route, relay_to, peer_of, delay_of, refill}
use remote_x.Server.Hub.Inv.{Inv, IsPartner}
use remote_x.Server.Hub.Access.{ArePeers, relay_route-peer}
use remote_x.Server.Hub.Sessions.{
  end_by-IsPartner, IsOver, summary, sweep-IsOver, report_password_failure-bans,
}
use remote_x.Server.Hub.Run.{step, Call, attaches, connects, relays, sweeps, run, run-new-Inv}

abbrev ann : Text
ann = codes "111111111"

abbrev bob : Text
bob = codes "222222222"

abbrev cat : Text
cat = codes "333333333"

abbrev conn : ℕ → Conn
conn n = record {
  conn_id = n;
  tx = 100 + n;
  kick = 200 + n;
  name = codes "pc";
  ip = 7;
  candidates = codes "lan" ∷ [];
  incoming_enabled = true;
}

abbrev cfg : Config
cfg = record { max_sessions = 2; max_relay_mbps_per_session = 8 }

abbrev session : Text → Text → Mode → Session ℕ
session viewer host mode = record {
  viewer = viewer;
  host = host;
  viewer_ip = 7;
  created = 0;
  last_activity = 0;
  mode = mode;
  bytes = 0;
  bucket = record { tokens = 0; last = 0 };
}

abbrev hub : List (ℕ × Session ℕ) → List (Text × ℕ) → Hub ℕ
hub sessions in_session = record {
  cfg = cfg;
  metrics = record {
    relay_bytes = 0;
    relay_bps = 0;
    sessions_total = 0;
    connects_rejected = 0;
    auth_failures = 0;
    errors = 0;
  };
  next_conn = 4;
  inner = record {
    devices = (ann, conn 1) ∷ (bob, conn 2) ∷ (cat, conn 3) ∷ [];
    sessions = sessions;
    in_session = in_session;
    lim = new_limiters;
  };
}

abbrev idle : Hub ℕ
idle = hub [] []

-- Ann views Bob.
abbrev joined : Hub ℕ
joined = hub ((5, session ann bob pending) ∷ []) ((ann, 5) ∷ (bob, 5) ∷ [])

abbrev history : List Call
history =
    attaches ann (conn 1)
    ∷ attaches bob (conn 2)
    ∷ connects ann bob 5 0
    ∷ relays 5 bob 10 1
    ∷ sweeps (seconds 200)
    ∷ []

differ : (s t : Text) → text_beq s t ≡ false → s ≢ t
differ s t h e = ground (arith, text_beq_iff s t)

run-new-Inv_example : Inv (run thousandths (new cfg) history)
unfolding step new attach Map.lookup Map.empty
run-new-Inv_example = run-new-Inv thousandths cfg history (tt, (tt, (refl, (tt, (tt, tt)))))

idle-Inv : Inv idle
unfolding Map.lookup Map.len
idle-Inv = record {
  consistent = record { linked = λ sid s e. cc; owned = λ d sid e. cc; online = λ d sid e. cc };
  within = omega arith;
}

joined-Inv : Inv joined
unfolding Map.lookup Map.len
joined-Inv = record {
  consistent = record {
    linked = λ k s e. ground (
      arith,
      text_beq_iff ann s.viewer,
      text_beq_iff bob s.viewer,
      text_beq_iff ann s.host,
      text_beq_iff bob s.host,
      text_beq_iff ann bob,
    );
    owned = λ d k e. (
      session ann bob pending,
      ground (arith, text_beq_iff ann d, text_beq_iff bob d),
      ground (arith, text_beq_iff ann d, text_beq_iff bob d),
    );
    online = λ d k e. ground (arith, text_beq_iff ann d, text_beq_iff bob d, text_beq_iff cat d);
  };
  within = omega arith;
}

-- Ann, in a session with Bob, asks for herself instead, for Cat, and for Cat while Cat is busy.
connects_itself : (connect thousandths ann ann 6 9 joined).0 ≡ err invalid_id
unfolding connect throttle is_banned ban_by_ip ban_by_enumeration find_target Limiter.locked
    Limiter.record_failure Limiter.counted Limiter.reaches Limiter.new Map.lookup Map.insert
    Map.empty Ids.parse Ids.strip Ids.is_separator Ids.normalize_digits Ids.normalize_digit
    Ids.checked byte_len text_beq
connects_itself = refl

granted : Started
granted = record {
  session = 6;
  host_tx = 103;
  host_name = codes "pc";
  viewer_name = codes "pc";
  same_network = true;
  host_candidates = codes "lan" ∷ [];
  replaced = none;
}

connect-Granted_example :
    Granted thousandths ann cat 6 idle granted (connect thousandths ann cat 6 9 idle).1
unfolding granted connect throttle is_banned ban_by_ip ban_by_enumeration find_target replace_own
    open_session Limiter.locked Limiter.record_failure Limiter.counted Limiter.reaches Limiter.new
    Map.lookup Map.insert Map.empty Map.len Ids.parse Ids.strip Ids.is_separator
    Ids.normalize_digits Ids.normalize_digit Ids.checked byte_len text_beq
connect-Granted_example = connect-Granted thousandths ann cat 6 9 idle granted idle-Inv refl

-- Ann views Bob while Cat is viewed from elsewhere.
abbrev crowded : Hub ℕ
crowded =
    hub ((5, session ann bob pending) ∷ (8, session (codes "444444444") cat pending) ∷ [])
      ((ann, 5) ∷ (bob, 5) ∷ (cat, 8) ∷ (codes "444444444", 8) ∷ [])

connect_busy-drops_example :
    ((connect thousandths ann cat 6 9 crowded).0 ≡ err busy)
    × (Map.lookup 5 (connect thousandths ann cat 6 9 crowded).1.sessions ≡ none)
    × (Map.lookup bob (connect thousandths ann cat 6 9 crowded).1.in_session ≡ none)
unfolding throttle is_banned ban_by_ip ban_by_enumeration Limiter.locked Limiter.record_failure
    Limiter.counted Limiter.reaches Limiter.new Map.lookup Map.insert Map.empty Ids.parse Ids.strip
    Ids.is_separator Ids.normalize_digits Ids.normalize_digit Ids.checked byte_len text_beq
connect_busy-drops_example =
    connect_busy-drops thousandths ann cat cat (conn 1) (conn 3) 6 9 5 8 (session ann bob pending)
      crowded refl refl refl (differ cat ann refl) refl refl refl refl refl (differ bob cat refl)
      refl

abbrev to_bob : RelayRoute
to_bob = record { tx = 102; delay = 0 }

relay_route-peer_example :
    (s : Session ℕ) × (peer : Text) × (c : Conn) × (Map.lookup 5 joined.sessions ≡ some s)
    × (s.mode ≢ direct)
    × ArePeers ann peer s
    × (Map.lookup peer joined.devices ≡ some c)
    × (102 ≡ c.tx)
unfolding relay_route relay_to peer_of delay_of refill Map.lookup text_beq
relay_route-peer_example = relay_route-peer thousandths 5 ann 10 1 joined to_bob refl

end_by-IsPartner_example : end_by 5 cat joined ≡ (none, joined)
unfolding Map.lookup text_beq
end_by-IsPartner_example = (end_by-IsPartner 5 cat joined (session ann bob pending) refl).1 not_in
  where
    not_in : ¬ IsPartner cat (session ann bob pending)
    not_in (inl e) = differ cat ann refl e
    not_in (inr e) = differ cat bob refl e

long-IsOver : IsOver (seconds 61) (session ann bob pending)
unfolding IsOver
long-IsOver = inl (refl, omega arith)

sweep-IsOver_example :
    (Map.lookup 5 (sweep (seconds 61) joined).1.sessions ≡ none)
    × (Map.lookup ann (sweep (seconds 61) joined).1.in_session ≡ none)
    × (Map.lookup bob (sweep (seconds 61) joined).1.in_session ≡ none)
    × Has (summary 5 (session ann bob pending) joined) (sweep (seconds 61) joined).0
unfolding Map.lookup
sweep-IsOver_example =
    (sweep-IsOver (seconds 61) 5 joined (session ann bob pending) refl).0 long-IsOver

-- Bob's third report within the window, with thresholds of one.
abbrev strict : Hub ℕ
strict = record joined {
  inner = record joined.inner {
    lim = record new_limiters {
      pw_fail_viewer = Limiter.new 1 60 300;
      pw_fail_ip = Limiter.new 2 60 300;
    };
  };
}

report_password_failure-bans_example :
    ((connect thousandths ann cat 6 20 (report_password_failure 5 bob 3 strict).1).0
      ≡ err rate_limited)
    ⊎ ((connect thousandths ann cat 6 20 (report_password_failure 5 bob 3 strict).1).0 ≡ err banned)
unfolding report_password_failure Limiter.record_failure Limiter.counted Limiter.reaches Limiter.new
    Map.lookup Map.insert Map.empty text_beq
report_password_failure-bans_example =
    (report_password_failure-bans thousandths 5 bob cat 3 20 6 strict (session ann bob pending)
        (conn 1) refl).1
      refl (omega arith) (omega arith) refl refl
