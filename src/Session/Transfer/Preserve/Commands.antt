-- ===== src/Session/Transfer/Preserve/Commands.antt =====
-- crates/session/src/transfer.rs: every call, and so every run of calls and messages, keeps the
-- file manager's books sound.
use remote_x.Prelude.{
  ℕ, ◌+◌, ◌≡◌, refl, subst, Bool, true, false, not, List, [], ◌∷◌, Option, none, some, arith,
  if_both, option_both, ◌||◌,
}
use remote_x.Prelude.Eq.{nat_eq}
use remote_x.Prelude.Result.{Result}
use remote_x.Common.Text.{Text, codes}
use remote_x.Map
use remote_x.Map.{lookup, remove}
use remote_x.Map.Entries.{lookup-Every, remove-Every}
use remote_x.Files.Transfer.{Disk, OutgoingFile, next_chunk}
use remote_x.Session.Transfer.State.{
  new, FilePolicy, active, Transfer, FileManager, Out, Outcome, is_viewer, silently, alloc_id,
}
use remote_x.Session.Transfer.Incoming.{World, reject, is_known, dropped, told_to_stop}
use remote_x.Session.Transfer.Messages.{offer_file}
use remote_x.Session.Transfer.Sound.{
  core, IsSound, IsAsked, Inv, Free, update-Inv, silently-Inv, fail-Inv,
}
use remote_x.Session.Transfer.Commands.{
  on_cancel_known, cancel_transfer, cancel_each, cancel_all, set_allowed, with_pause, pausing,
  resuming, pause, resume, Refusal, offer_each, send_paths, retry, respond, ask_list, download,
  stream_step,
}
use remote_x.Session.Transfer.Preserve.{KeepsInv, progress-Inv, accept_incoming-Inv}
use remote_x.Session.Transfer.State.{Ctl}
use remote_x.Session.Transfer.Calls.{
  Call, receives, cancels, allows, pauses, resumes_one, retries, sends, responds, downloads,
  asks_list, streams, step, run,
}
use remote_x.Session.Transfer.Preserve.Messages.{offer_file-Inv, on_msg-Inv}
use remote_x.Session.Transfer.State.{is_open, paused, with_status}
use remote_x.Map.{keys_where}
use remote_x.Prelude.{length, All, ◌+◌, ◌*◌}

module _ (w : World) (p : FilePolicy) (T : Option ℕ → Type 0) where
  cancel_transfer-Inv :
      (id : ℕ) (m : FileManager) → Inv w p T m → Inv w p T (cancel_transfer id m).0
  unfolding cancel_transfer on_cancel_known core
  cancel_transfer-Inv id m h =
      if_both (λ (o : Outcome). Inv w p T o.0) (is_known id m)
        (λ e.
          update-Inv w p T id dropped (silently id told_to_stop m) (λ t. refl)
            (silently-Inv w p T id told_to_stop m (λ t. refl) h))
        (λ e. h)

  cancel_each-Inv : (ids : List ℕ) (m : FileManager) → Inv w p T m → Inv w p T (cancel_each ids m).0
  unfolding cancel_each
  cancel_each-Inv [] m h = h
  cancel_each-Inv (id ∷ ids) m h =
      cancel_each-Inv ids (cancel_transfer id m).0 (cancel_transfer-Inv id m h)

  set_allowed-Inv : (b : Bool) (m : FileManager) → Inv w p T m → Inv w p T (set_allowed b m).0
  unfolding set_allowed cancel_all Inv
  set_allowed-Inv b m h =
      if_both (λ (o : Outcome). Inv w p T o.0) b (λ e. h)
        (λ e.
          cancel_each-Inv (keys_where (λ id t. is_open t.info.status) m.transfers)
            (record m { allowed = b }) h)

  pausing-core : (t : Transfer) → core (pausing t) ≡ core t
  unfolding pausing core
  pausing-core t =
      elim t.info.status
        as (λ s. core (elim s [ active ↦ with_status paused t | _ ↦ t ]) ≡ core t) [
          | active ↦ refl
          | _ ↦ refl
        ]

  resuming-core : (t : Transfer) → core (resuming t) ≡ core t
  unfolding resuming core
  resuming-core t = ground arith

  pause-Inv : (id : ℕ) (m : FileManager) → Inv w p T m → Inv w p T (pause id m).0
  unfolding pause core
  pause-Inv id m h =
      update-Inv w p T id pausing (silently id (with_pause true) m) pausing-core
        (silently-Inv w p T id (with_pause true) m (λ t. refl) h)

  resume-Inv : (id : ℕ) (m : FileManager) → Inv w p T m → Inv w p T (resume id m).0
  unfolding resume core
  resume-Inv id m h =
      update-Inv w p T id resuming (silently id (with_pause false) m) resuming-core
        (silently-Inv w p T id (with_pause false) m (λ t. refl) h)

  offer_each-Inv :
      (files : List (Text × Text)) (now : ℕ) (m : FileManager)
      → Inv w p T m
      → Inv w p T (offer_each w files now m).1
  unfolding offer_each KeepsInv
  offer_each-Inv [] now m h = h
  offer_each-Inv ((path, name) ∷ files) now m h =
      option_both (λ (o : Option Refusal × FileManager × List Out). Inv w p T o.1)
        (offer_file w path name now m) (λ e. h)
        (λ r e.
          offer_each-Inv files now r.0
            (subst (KeepsInv w p T) e (offer_file-Inv w p T path name now m h)))

  send_paths-Inv :
      (files : Option (List (Text × Text))) (now : ℕ) (m : FileManager)
      → Inv w p T m
      → Inv w p T (send_paths w files now m).1
  unfolding send_paths
  send_paths-Inv files now m h =
      let P : Result ℕ Refusal × FileManager × List Out → Type 0 = λ o. Inv w p T o.1 in
      if_both P (not m.allowed) (λ e. h)
        (λ e. option_both P files (λ e'. h) (λ fs e'. offer_each-Inv fs now m h))

  retry-Inv : (id now : ℕ) (m : FileManager) → Inv w p T m → Inv w p T (retry w id now m).1
  unfolding retry Inv KeepsInv
  retry-Inv id now m h =
      let P : Option Refusal × FileManager × List Out → Type 0 = λ o. Inv w p T o.1 in
      option_both P (lookup id m.transfers) (λ e. h)
        (λ t e.
          if_both P (not t.info.upload) (λ e'. h)
            (λ e'.
              let m' : FileManager = record m { transfers = remove id m.transfers } in
              let h' : Inv w p T m' = (h.0, remove-Every (IsSound w p) id m.transfers h.1, h.2) in
              option_both P (offer_file w t.path t.info.name now m') (λ x. h')
                (λ r x.
                  subst (KeepsInv w p T) x (offer_file-Inv w p T t.path t.info.name now m' h'))))

  respond-Inv :
      (id : ℕ) (agrees : Bool) (now : ℕ) (m : FileManager)
      → Inv w p T m
      → Inv w p T (respond w id agrees now m).0
  unfolding respond Inv IsAsked reject
  respond-Inv id agrees now m h =
      let P : Outcome → Type 0 = λ o. Inv w p T o.0 in
      option_both P (lookup id m.pending_approval) (λ e. h)
        (λ asked e.
          let m' : FileManager = record m { pending_approval = remove id m.pending_approval } in
          let h' : Inv w p T m' =
            (h.0, h.1, remove-Every (IsAsked w p) id m.pending_approval h.2) in
          if_both P agrees
            (λ x.
              accept_incoming-Inv w p T id asked.0 asked.1 now m'
                (lookup-Every (IsAsked w p) id asked m.pending_approval h.2 e) h')
            (λ x. h'))

  download-Inv :
      (path : Text) (now : ℕ) (m : FileManager)
      → T (some (now + 30 * 1_000_000_000))
      → Inv w p T m
      → Inv w p T (download path now m).1
  unfolding download Inv alloc_id
  download-Inv path now m asked h =
      if_both (λ (o : Option Refusal × FileManager × List Out). Inv w p T o.1)
        (not m.allowed || not (is_viewer m.policy.side)) (λ e. h) (λ e. ((h.0.0, asked), h.1, h.2))

  stream_step-Inv :
      (digest : Option (List ℕ)) (short id now : ℕ) (ctl : Ctl) (file : OutgoingFile)
      (m : FileManager)
      → Inv w p T m
      → Inv w p T (stream_step w digest short id now ctl file m).1
  unfolding stream_step
  stream_step-Inv digest short id now ctl file m h =
      let P : Option OutgoingFile × FileManager × List Out → Type 0 = λ o. Inv w p T o.1 in
      if_both P ctl.cancelled (λ e. h)
        (λ e.
          if_both P ctl.paused (λ e'. h)
            (λ e'.
              option_both P (next_chunk short file).0
                (λ x.
                  option_both P digest
                    (λ y. fail-Inv w p T id (codes "could not hash the file") m h) (λ d y. h))
                (λ c x. progress-Inv w p T w.per_second id (c.0 + length c.1) now m h)))

  -- A call that makes the manager expect offers is known as one.
  unfoldable pub Noted : ℕ × Call → Type 0
  Noted (now, downloads path) = T (some (now + 30 * 1_000_000_000))
  Noted (now, c) = Unit

  pub step-Inv :
      (fuel : ℕ) (c : Call) (now : ℕ) (m : FileManager)
      → Noted (now, c)
      → Inv w p T m
      → KeepsInv w p T (step w fuel c now m)
  unfolding step KeepsInv ask_list Noted
  step-Inv fuel (receives msg) now m k h = on_msg-Inv w p T fuel msg now m h
  step-Inv fuel (cancels id) now m k h = cancel_transfer-Inv id m h
  step-Inv fuel (allows b) now m k h = set_allowed-Inv b m h
  step-Inv fuel (pauses id) now m k h = pause-Inv id m h
  step-Inv fuel (resumes_one id) now m k h = resume-Inv id m h
  step-Inv fuel (retries id) now m k h = retry-Inv id now m h
  step-Inv fuel (sends files) now m k h = send_paths-Inv files now m h
  step-Inv fuel (responds id b) now m k h = respond-Inv id b now m h
  step-Inv fuel (downloads path) now m k h = download-Inv path now m k h
  step-Inv fuel (asks_list path) now m k h = h
  step-Inv fuel (streams digest short id ctl file) now m k h =
      stream_step-Inv digest short id now ctl file m h

  -- What a run leaves, if it ends.
  unfoldable pub Leaves : Option FileManager → Type 0
  Leaves none = Unit
  Leaves (some m) = Inv w p T m

  pub run-Inv :
      (fuel : ℕ) (cs : List (ℕ × Call)) (m : FileManager)
      → All Noted cs
      → Inv w p T m
      → Leaves (run w fuel cs m)
  unfolding run KeepsInv Leaves
  run-Inv fuel [] m k h = h
  run-Inv fuel ((now, c) ∷ cs) m (n, k) h =
      option_both Leaves (step w fuel c now m) (λ e. tt)
        (λ r e. run-Inv fuel cs r.0 k (subst (KeepsInv w p T) e (step-Inv fuel c now m n h)))

module _ (w : World) (p : FilePolicy) where
  All-Noted : (cs : List (ℕ × Call)) → All (Noted w p Free) cs
  unfolding Noted
  All-Noted [] = tt
  All-Noted ((now, downloads path) ∷ cs) = (tt, All-Noted cs)
  All-Noted ((now, c) ∷ cs) = (tt, All-Noted cs)

  -- Whatever is asked for and received, in whatever order: a transfer is tracked under its own id,
  -- an upload's id is one of this side's, and a download has an id of the peer's, a name that was
  -- accepted and a size within the limit.
  pub run-new-IsSound :
      (fuel : ℕ) (cs : List (ℕ × Call)) (allowed : Bool) (disk : Disk) (m : FileManager)
      → run w fuel cs (new p allowed disk) ≡ some m
      → (id : ℕ) (t : Transfer) → lookup id m.transfers ≡ some t
      → IsSound w p id t
  unfolding Inv new Leaves Map.empty
  run-new-IsSound fuel cs allowed disk m e id t q =
      let h : Inv w p Free m =
        subst (Leaves w p Free) e
          (run-Inv w p Free fuel cs (new p allowed disk) (All-Noted cs) ((refl, tt), tt, tt)) in
      lookup-Every (IsSound w p) id t m.transfers h.1 q
