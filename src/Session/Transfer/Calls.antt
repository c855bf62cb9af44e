-- ===== src/Session/Transfer/Calls.antt =====
-- crates/session/src/transfer.rs: the file manager over time: the calls of the session and of the
-- user and the messages of the peer, in the order in which they take the lock.
use remote_x.Prelude.{ℕ, Bool, List, [], ◌∷◌, Option, none, some}
use remote_x.Prelude.Eq.{nat_eq}
use remote_x.Common.Text.{Text}
use remote_x.Common.Peer.{FileMsg}
use remote_x.Files.Transfer.{OutgoingFile}
use remote_x.Session.Transfer.State.{FileManager, Outcome}
use remote_x.Session.Transfer.Incoming.{World}
use remote_x.Session.Transfer.Messages.{on_msg}
use remote_x.Session.Transfer.Commands.{
  cancel_transfer, set_allowed, pause, resume, send_paths, retry, respond, download, ask_list,
  stream_step,
}
use remote_x.Session.Transfer.State.{Ctl}

-- What happens to a file manager.
pub data Call : Type 0 where
  receives : FileMsg → Call
  cancels : ℕ → Call
  allows : Bool → Call
  pauses resumes_one retries : ℕ → Call
  sends : Option (List (Text × Text)) → Call
  responds : ℕ → Bool → Call
  downloads asks_list : Text → Call
  streams : Option (List ℕ) → ℕ → ℕ → Ctl → OutgoingFile → Call

module _ (w : World) where
  -- The state and what is sent and reported; `none` where the queue did not end within the fuel.
  unfoldable pub step : ℕ → Call → ℕ → FileManager → Option Outcome
  unfolding on_msg
  step fuel (receives msg) now m = on_msg w fuel msg now m
  step fuel (cancels id) now m = some (cancel_transfer id m)
  step fuel (allows b) now m = some (set_allowed b m)
  step fuel (pauses id) now m = some (pause id m)
  step fuel (resumes_one id) now m = some (resume id m)
  step fuel (retries id) now m = let (r, m', outs) = retry w id now m in some (m', outs)
  step fuel (sends files) now m = let (r, m', outs) = send_paths w files now m in some (m', outs)
  step fuel (responds id b) now m = some (respond w id b now m)
  step fuel (downloads path) now m = let (r, m', outs) = download path now m in some (m', outs)
  step fuel (asks_list path) now m = some (ask_list path m)
  step fuel (streams digest short id ctl file) now m =
      let (r, m', outs) = stream_step w digest short id now ctl file m in some (m', outs)

  -- A run of calls at their times; `none` where one of them did not end.
  unfoldable pub run : ℕ → List (ℕ × Call) → FileManager → Option FileManager
  unfolding step
  run fuel [] m = some m
  run fuel ((now, c) ∷ cs) m = elim (step fuel c now m) [ none ↦ none | some r ↦ run fuel cs r.0 ]
