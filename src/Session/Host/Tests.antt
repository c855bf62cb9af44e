-- ===== src/Session/Host/Tests.antt =====
-- A session whose owner takes the keyboard away.
use remote_x.Prelude.{ℕ, ◌≡◌, ◌++◌, refl, true, false, List, [], ◌∷◌, Option, none, some, length}
use remote_x.Prelude.Eq.{nat_eq}
use remote_x.Float.{thousandths}
use remote_x.Map
use remote_x.Common.Text.{Text}
use remote_x.Common.Peer.{all_elevated, intersect, QualitySettings, auto}
use remote_x.Input.Clipboard.{Backend}
use remote_x.Session.Transfer.State
use remote_x.Session.Transfer.State.{FilePolicy, host}
use remote_x.Session.Transfer.Incoming.{World}
use remote_x.Session.Transfer.Commands.{set_allowed, cancel_all, cancel_each}
use remote_x.Session.Host.State.{HostState, Happening, commands, set_permissions}
use remote_x.Session.Host.Turn.{
  perms_eq, settle_elevated, apply_permissions, on_set_permissions, on_command, lost_input, turn,
  start, run, adapter_for, primary_display, find_primary,
}
use remote_x.Session.Host.Granted.{IsGranted, run-start-IsGranted}

abbrev board : Backend ℕ
board = record { sequence = λ b. b; read = λ b. (none, b); write = λ p b. (true, b) }

abbrev hash : List ℕ → ℕ
hash bytes = length bytes

abbrev bytes : Text → List ℕ
bytes t = t

abbrev world : World
world = record {
  is_normal = λ c. true;
  place = λ name. name;
  numbered = λ name i. name ++ (i ∷ []);
  openable = λ name. true;
  sha256 = λ bs. bs;
  file_size = λ path. none;
  found = λ path. none;
  list_directory = λ path. ([], none);
  per_second = λ n span. n;
}

abbrev policy : FilePolicy
policy = record { side = host; ask_before_receiving = true; max_file_size = 100; max_active = 2 }

abbrev settings : QualitySettings
settings = record {
  preset = auto;
  fps = 0;
  max_height = 0;
  bitrate_kbps = 0;
  codec = none;
  hardware = true;
  adaptive = true;
}

abbrev beginning : HostState ℕ ℕ ℕ
beginning =
    start thousandths thousandths board hash bytes world all_elevated true settings [] policy []
      none 5

abbrev story : List (Happening ℕ × ℕ × ℕ)
story =
    (
      commands true (set_permissions (record all_elevated { keyboard = false; elevated = false })),
      6,
      6,
    )
    ∷ (commands false (set_permissions all_elevated), 7, 7)
    ∷ []

abbrev state : Option (HostState ℕ ℕ ℕ) → HostState ℕ ℕ ℕ
state none = beginning
state (some s) = s

abbrev ending : Option (HostState ℕ ℕ ℕ)
ending = run thousandths thousandths board hash bytes world 3 story beginning

ends : ending ≡ some (state ending)
unfolding run turn on_command on_set_permissions settle_elevated apply_permissions intersect
    perms_eq lost_input set_allowed cancel_all cancel_each Map.keys_where start State.new Map.empty
    adapter_for primary_display find_primary
ends = refl

-- The keyboard comes back, and elevated control does not, since the service refuses.
comes_back : (state ending).perms ≡ record all_elevated { elevated = false }
unfolding run turn on_command on_set_permissions settle_elevated apply_permissions intersect
    perms_eq lost_input set_allowed cancel_all cancel_each Map.keys_where start State.new Map.empty
    adapter_for primary_display find_primary
comes_back = refl

run-start-IsGranted_example :
    IsGranted thousandths thousandths board hash bytes world all_elevated (state ending)
run-start-IsGranted_example =
    run-start-IsGranted thousandths thousandths board hash bytes world all_elevated 3 story true
      settings [] policy [] none 5 (state ending) ends
