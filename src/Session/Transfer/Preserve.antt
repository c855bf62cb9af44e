-- ===== src/Session/Transfer/Preserve.antt =====
-- crates/session/src/transfer.rs: every call and message keeps the file manager's books sound.
pub mod Messages
pub mod Commands
use remote_x.Prelude.{
  ℕ, suc, zero, ◌+◌, ◌*◌, ◌%◌, ◌^◌, ◌≤◌, ◌≡◌, refl, sym, subst, ap, ◌∙◌, Bool, true, false, not,
  List, [], ◌∷◌, ◌++◌, Option, none, some, arith, if◌then◌else◌, if_both, option_both, Bool-cases,
  Option-cases, ◌⊎◌, inl, inr, ltb, leb, nat_beq, ◌&&◌, ◌||◌,
}
use remote_x.Prelude.Eq.{nat_eq}
use remote_x.Prelude.Result.{Result, ok, err, result_both}
use remote_x.Common.Text.{Text, codes}
use remote_x.Common.Peer.{
  FileMsg, offer, accept, reject_file, chunk, done, verified, cancel, list_dir, dir_listing, fetch,
}
use remote_x.Map.{Map, lookup, insert, remove}
use remote_x.Map.Entries.{Every, lookup-Every, insert-Every, remove-Every}
use remote_x.Files.Names.{FileError, sanitize_relative}
use remote_x.Files.Transfer.{Disk, IncomingFile, open_file, write_chunk, finish}
use remote_x.Session.Transfer.State.{
  FilePolicy, TransferStatus, pending, active, Transfer, FileManager, Out, Outcome, ◌>>◌, is_viewer,
  bit, update, silently, track, fresh, alloc_id, failing, fail, send, spawn_stream, active_count,
}
use remote_x.Session.Transfer.Incoming.{
  World, reject, recent, last_sample, speed_of, advanced, progress, started, is_known, file_error,
  is_queued, next_queued, from_peer, expects, ask_user, with_incoming, finished, dropped,
  told_to_stop, resumes, open_incoming, ensure_tracked, start_incoming, start_opened,
  accept_incoming, start_queued, is_bad_name, on_offer, on_chunk, finish_incoming, on_done,
}
use remote_x.Session.Transfer.Messages.{
  accepted, awaits_accept, on_accept, on_verified, on_cancel, refuse_disabled, on_list, offer_file,
  offer_found, on_fetch, handle, on_msg,
}
use remote_x.Session.Transfer.Sound.{
  core, IsFit, HasCore, IsSound, IsAsked, Inv, update-Inv, silently-Inv, track-Inv, then-Inv,
  fail-Inv, alloc_id-IsOwn, alloc_id-Inv,
}

module _ (w : World) (p : FilePolicy) (T : Option ℕ → Type 0) where
  -- The invariant of the state that a call leaves, if it ends.
  unfoldable pub KeepsInv : Option Outcome → Type 0
  KeepsInv none = Unit
  KeepsInv (some r) = Inv w p T r.0

  pub progress-Inv :
      (per_second : ℕ → ℕ → ℕ) (id transferred now : ℕ) (m : FileManager)
      → Inv w p T m
      → Inv w p T (progress per_second id transferred now m).0
  unfolding progress Inv core advanced IsSound
  progress-Inv per_second id transferred now m h =
      option_both (λ (o : Outcome). Inv w p T o.0) (lookup id m.transfers) (λ e. h)
        (λ t e. (
          h.0,
          insert-Every (IsSound w p) id (advanced per_second now transferred t) m.transfers
              (lookup-Every (IsSound w p) id t m.transfers h.1 e) h.1,
          h.2,
        ))

  open_incoming-Inv :
      (name : Text) (size : ℕ) (m : FileManager)
      → Inv w p T m
      → Inv w p T (open_incoming w name size m).1
  unfolding open_incoming Inv
  open_incoming-Inv name size m h =
      if_both (λ (r : Result IncomingFile FileError × FileManager). Inv w p T r.1)
        (ltb m.policy.max_file_size size) (λ e. h)
        (λ e.
          result_both (λ (r : Result IncomingFile FileError × FileManager). Inv w p T r.1)
            (sanitize_relative w.is_normal name)
            (λ parts e'.
              if_both (λ (r : Result IncomingFile FileError × FileManager). Inv w p T r.1)
                (not (w.openable name)) (λ e''. h) (λ e''. h))
            (λ x e'. h))

  ensure_tracked-Inv :
      (id : ℕ) (name : Text) (size now : ℕ) (m : FileManager)
      → IsFit w p id name size
      → Inv w p T m
      → Inv w p T (ensure_tracked w id name size now m).0
  unfolding ensure_tracked HasCore
  ensure_tracked-Inv id name size now m c h =
      if_both (λ (o : Outcome). Inv w p T o.0) (is_known id m) (λ e. h)
        (λ e. track-Inv w p T id name size false (w.place name) active now m (refl, c) h)

  start_opened-Inv :
      (id : ℕ) (name : Text) (size now : ℕ) (r : Result IncomingFile FileError × FileManager)
      → IsFit w p id name size
      → Inv w p T r.1
      → Inv w p T (start_opened w id name size now r).0
  unfolding start_opened reject core
  start_opened-Inv id name size now (ok file, m) c h =
      update-Inv w p T id (started file) (ensure_tracked w id name size now m).0 (λ t. refl)
        (ensure_tracked-Inv id name size now m c h)
  start_opened-Inv id name size now (err e, m) c h = fail-Inv w p T id (file_error e) m h

  pub start_incoming-Inv :
      (id : ℕ) (name : Text) (size now : ℕ) (m : FileManager)
      → IsFit w p id name size
      → Inv w p T m
      → Inv w p T (start_incoming w id name size now m).0
  unfolding start_incoming
  start_incoming-Inv id name size now m c h =
      start_opened-Inv id name size now (open_incoming w name size m) c
        (open_incoming-Inv name size m h)

  pub accept_incoming-Inv :
      (id : ℕ) (name : Text) (size now : ℕ) (m : FileManager)
      → IsFit w p id name size
      → Inv w p T m
      → Inv w p T (accept_incoming w id name size now m).0
  unfolding accept_incoming HasCore core
  accept_incoming-Inv id name size now m c h =
      if_both (λ (o : Outcome). Inv w p T o.0) (leb m.policy.max_active (active_count m))
        (λ e.
          silently-Inv w p T id (λ t. record t { queued = true })
            (track id name size false [] pending now m).0 (λ t. refl)
            (track-Inv w p T id name size false [] pending now m (refl, c) h))
        (λ e. start_incoming-Inv id name size now m c h)

  download-IsFit :
      (id : ℕ) (t : Transfer)
      → t.info.upload ≡ false
      → IsSound w p id t
      → IsFit w p id t.info.name t.info.size
  unfolding IsSound HasCore core
  download-IsFit id t e h =
      (subst (λ b. HasCore w p id (t.info.id, t.info.name, t.info.size, b)) e h).1

  -- The download that the queue gives is one that was accepted.
  unfoldable pub FitNext : Option (ℕ × Transfer) → Type 0
  FitNext none = Unit
  FitNext (some (id, t)) = IsFit w p id t.info.name t.info.size

  pub next_queued-FitNext : (m : Map ℕ Transfer) → Every (IsSound w p) m → FitNext (next_queued m)
  unfolding next_queued is_queued FitNext
  next_queued-FitNext [] h = tt
  next_queued-FitNext ((id, t) ∷ m) h =
      if_both FitNext (is_queued t) (λ e. download-IsFit id t (ground (arith, e)) h.0)
        (λ e. next_queued-FitNext m h.1)

  offer-IsFit :
      (id : ℕ) (name : Text) (size : ℕ) (m : FileManager)
      → Inv w p T m
      → from_peer id m ≡ true
      → is_bad_name w name ≡ false
      → ltb m.policy.max_file_size size ≡ false
      → IsFit w p id name size
  unfolding Inv IsFit from_peer
  offer-IsFit id name size m h e e' e'' =
      let side : is_viewer m.policy.side ≡ is_viewer p.side =
        ap (λ (q : FilePolicy). is_viewer q.side) h.0.0 in
      let most : m.policy.max_file_size ≡ p.max_file_size =
        ap (λ (q : FilePolicy). q.max_file_size) h.0.0 in
      (ground (arith, e, side), e', ground (arith, e'', most))

  ask_user-Inv :
      (id : ℕ) (name : Text) (size : ℕ) (m : FileManager)
      → IsFit w p id name size
      → Inv w p T m
      → Inv w p T (ask_user id name size m).0
  unfolding ask_user Inv IsAsked
  ask_user-Inv id name size m c h =
      (h.0, h.1, insert-Every (IsAsked w p) id (name, size) m.pending_approval c h.2)

  pub on_offer-Inv :
      (id : ℕ) (name : Text) (size now : ℕ) (m : FileManager)
      → Inv w p T m
      → Inv w p T (on_offer w id name size now m).0
  unfolding on_offer reject
  on_offer-Inv id name size now m h =
      let P : Outcome → Type 0 = λ o. Inv w p T o.0 in
      if_both P (not (from_peer id m) || is_known id m) (λ e. h)
        (λ e.
          if_both P (is_bad_name w name || ltb m.policy.max_file_size size) (λ e'. h)
            (λ e'.
              let c : IsFit w p id name size =
                offer-IsFit id name size m h (ground (arith, e)) (ground (arith, e'))
                  (ground (arith, e')) in
              if_both P (is_viewer m.policy.side)
                (λ v.
                  if_both P (expects now m) (λ x. accept_incoming-Inv id name size now m c h)
                    (λ x. h))
                (λ v.
                  if_both P m.policy.ask_before_receiving (λ x. ask_user-Inv id name size m c h)
                    (λ x. accept_incoming-Inv id name size now m c h))))

  start_queued-Inv :
      (fuel now : ℕ) (m : FileManager) → Inv w p T m → KeepsInv (start_queued w fuel now m)
  unfolding start_queued KeepsInv Inv FitNext
  start_queued-Inv zero now m h = tt
  start_queued-Inv (suc fuel) now m h =
      if_both KeepsInv (leb m.policy.max_active (active_count m)) (λ e. h)
        (λ e.
          option_both KeepsInv (next_queued m.transfers) (λ e'. h)
            (λ next e'.
              let c : IsFit w p next.0 next.1.info.name next.1.info.size =
                subst FitNext e' (next_queued-FitNext m.transfers h.1) in
              let h' : Inv w p T
                  (start_incoming w next.0 next.1.info.name next.1.info.size now m).0 =
                start_incoming-Inv next.0 next.1.info.name next.1.info.size now m c h in
              option_both KeepsInv
                (start_queued w fuel now
                  (start_incoming w next.0 next.1.info.name next.1.info.size now m).0)
                (λ e''. tt)
                (λ r e''. subst KeepsInv e'' (
                  start_queued-Inv fuel now
                    (start_incoming w next.0 next.1.info.name next.1.info.size now m).0 h'))))

  pub on_chunk-Inv :
      (id offset : ℕ) (bytes : List ℕ) (now : ℕ) (m : FileManager)
      → Inv w p T m
      → Inv w p T (on_chunk w id offset bytes now m).0
  unfolding on_chunk core Inv
  on_chunk-Inv id offset bytes now m h =
      let P : Outcome → Type 0 = λ o. Inv w p T o.0 in
      option_both P (lookup id m.transfers) (λ e. h)
        (λ t e.
          if_both P t.ctl.cancelled (λ e'. h)
            (λ e'.
              option_both P t.incoming (λ e''. h)
                (λ f e''.
                  let r : Option FileError × IncomingFile × Disk =
                    write_chunk offset bytes f m.disk in
                  let h' : Inv w p T
                      (silently id (with_incoming (some r.1)) (record m { disk = r.2 })) =
                    silently-Inv w p T id (with_incoming (some r.1)) (record m { disk = r.2 })
                      (λ u. refl) h in
                  option_both P r.0
                    (λ x.
                      progress-Inv w.per_second id r.1.received now
                        (silently id (with_incoming (some r.1)) (record m { disk = r.2 })) h')
                    (λ why x.
                      fail-Inv w p T id (file_error why)
                        (silently id (with_incoming (some r.1)) (record m { disk = r.2 })) h'))))

  finish_incoming-Inv :
      (id : ℕ) (digest : List ℕ) (m : FileManager)
      → Inv w p T m
      → KeepsInv (finish_incoming w id digest m)
  unfolding finish_incoming core Inv KeepsInv
  finish_incoming-Inv id digest m h =
      option_both KeepsInv (lookup id m.transfers) (λ e. tt)
        (λ t e.
          option_both KeepsInv t.incoming (λ e'. tt)
            (λ f e'.
              let r : Result Text FileError × Disk = finish w.sha256 digest f m.disk in
              let h' : Inv w p T (silently id (with_incoming none) (record m { disk = r.1 })) =
                silently-Inv w p T id (with_incoming none) (record m { disk = r.1 }) (λ u. refl)
                  h in
              result_both (λ (o : Outcome). Inv w p T o.0) r.0
                (λ path x.
                  update-Inv w p T id (finished path)
                    (silently id (with_incoming none) (record m { disk = r.1 })) (λ u. refl) h')
                (λ why x.
                  fail-Inv w p T id (codes "integrity check failed")
                    (silently id (with_incoming none) (record m { disk = r.1 })) h')))

  pub on_done-Inv :
      (fuel id : ℕ) (digest : List ℕ) (now : ℕ) (m : FileManager)
      → Inv w p T m
      → KeepsInv (on_done w fuel id digest now m)
  unfolding on_done KeepsInv
  on_done-Inv fuel id digest now m h =
      option_both KeepsInv (finish_incoming w id digest m) (λ e. h)
        (λ r e.
          let h' : Inv w p T r.0 = subst KeepsInv e (finish_incoming-Inv id digest m h) in
          option_both KeepsInv (start_queued w fuel now r.0) (λ x. tt)
            (λ q x. subst KeepsInv x (start_queued-Inv fuel now r.0 h')))
