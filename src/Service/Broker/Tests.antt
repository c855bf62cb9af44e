-- ===== src/Service/Broker/Tests.antt =====
-- The theorems about the broker on a concrete run.
use remote_x.Prelude.{◌+◌, ◌≡◌, refl, true, false, List, [], ◌∷◌, none, some, All, if◌then◌else◌}
use remote_x.Map
use remote_x.Common.Text.{codes, text_beq}
use remote_x.Common.Event.{InputEvent, DisplayInfo}
use remote_x.Service.Broker.{
  Os, BrokerConfig, install_is_protected, is_prefix, shutdown, inject_to, Broker, Call, call_sweep,
  call_commit, call_inject, call_owner_gone, call_finish, step, grant_commit, inject, with_current,
  current, owner_gone, sweep, finish, end_grant, hold,
}
use remote_x.Service.Broker.Authority.{IsOwned, run, run-IsOwned}
use remote_x.Service.Broker.Agents.{run_effects, shut_down, granted, started, run_effects-accounted}

abbrev display : DisplayInfo
display = record { index = 0; name = []; width = 1920; height = 1080; x = 0; y = 0; primary = true }

-- Two callers race for the grant; an event is to be injected by its owner, one by another process;
-- before the owner's thread gets to write, the owner goes, and a sweep ends the grant.
abbrev calls : List Call
calls =
    call_commit 7 [] 99 0 (some 1)
    ∷ call_commit 8 [] 98 0 (some 2)
    ∷ call_inject 21 99 7 (InputEvent.key 29 false true) display
    ∷ call_inject 22 99 8 (InputEvent.key 29 false true) display
    ∷ call_owner_gone 23 7
    ∷ call_sweep 24 20000 true
    ∷ call_finish 24 20000 true
    ∷ call_finish 21 20001 false
    ∷ []

abbrev idle : Broker
idle = record { slot = none; working = []; next_serial = 0 }

-- What is asked of the agents: the one that lost the race and the one of the grant stop, and the
-- event of the owner still goes out to the second of them.
effects :
    (run_effects calls idle).1
    ≡ shutdown 2 ∷ shutdown 1 ∷ inject_to 1 (InputEvent.key 29 false true) display ∷ []
unfolding run_effects step grant_commit inject with_current current owner_gone sweep finish
    end_grant hold Map.insert Map.remove Map.lookup
effects = refl

run-IsOwned_example : All IsOwned (run calls idle [])
run-IsOwned_example = run-IsOwned calls none 0

run_effects-accounted_example :
    shut_down 2 (run_effects calls idle).1 + granted 2 (run_effects calls idle).0.slot
    ≡ started 2 calls + granted 2 none
run_effects-accounted_example = run_effects-accounted 2 calls idle

abbrev os : Os
os = record {
  parent = λ p. some (codes "c:\\program files\\remotex");
  lowercase = λ p. p;
  var = λ v. if text_beq v (codes "programfiles") then some (codes "c:\\program files") else none;
}

abbrev cfg : BrokerConfig
cfg = record {
  exe = codes "agent";
  allowed_ui = [];
  enforce_console_session = true;
  require_protected_install = true;
}

protected : install_is_protected os cfg ≡ true
unfolding install_is_protected is_prefix text_beq
protected = refl
