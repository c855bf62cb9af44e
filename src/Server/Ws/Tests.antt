-- ===== src/Server/Ws/Tests.antt =====
-- A connection of a client, with thousandths for floating-point numbers.
use remote_x.Prelude.{ℕ, true, [], ◌∷◌, some}
use remote_x.Prelude.Eq.{nat_eq}
use remote_x.Float.{thousandths}
use remote_x.Common.Text.{codes, text_eq}
use remote_x.Common.Signaling.{auth, relay}
use remote_x.Server.State.{Hub}
use remote_x.Server.Hub
use remote_x.Server.Ws.{Env, Online, Input, message, receives, auth_step, main_step}
use remote_x.Server.Ws.Calls.{IsReached, main_step-IsReached}
use remote_x.Server.Ws.Auth.{IsVouched, auth_step-IsVouched}

abbrev hub : Hub ℕ
hub = Hub.new (record { max_sessions = 4; max_relay_mbps_per_session = 8 })

abbrev env : Env
env = record { hash_secret = λ s. s; device_hash = λ id. some (7 ∷ []); is_address = λ a. true }

abbrev online : Online
online = record {
  id = codes "111111111";
  conn_id = 0;
  ip = 5;
  window_start = 0;
  window_count = 0;
  last_presence = 0;
}

main_step-IsReached_example :
    IsReached thousandths
      (online.id, online.conn_id)
      hub
      (main_step thousandths 3 true (receives (message (relay 9 (1 ∷ 2 ∷ [])))) 4 online hub).3
main_step-IsReached_example =
    main_step-IsReached thousandths 3 true (receives (message (relay 9 (1 ∷ 2 ∷ [])))) 4 online hub

abbrev login : Input
login = message (auth (codes "111111111") (7 ∷ []) (codes "1") (codes "n") [] true)

auth_step-IsVouched_example :
    IsVouched env thousandths 5 4 [] login hub (auth_step env thousandths 5 4 [] login hub)
auth_step-IsVouched_example = auth_step-IsVouched env thousandths 5 4 [] login hub
