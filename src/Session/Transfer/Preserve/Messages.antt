-- ===== src/Session/Transfer/Preserve/Messages.antt =====
-- crates/session/src/transfer.rs: every message of the peer keeps the file manager's books sound.
use remote_x.Prelude.{
  ℕ, refl, subst, Bool, true, false, not, List, [], ◌∷◌, if_both, option_both, ltb, Option,
}
use remote_x.Prelude.Eq.{nat_eq}
use remote_x.Common.Text.{Text, codes}
use remote_x.Common.Peer.{
  FileMsg, offer, accept, reject_file, chunk, done, verified, cancel, list_dir, dir_listing, fetch,
}
use remote_x.Map.{lookup}
use remote_x.Session.Transfer.State.{
  FilePolicy, pending, FileManager, Outcome, is_viewer, silently, alloc_id,
}
use remote_x.Session.Transfer.Incoming.{World, reject, finished, dropped, told_to_stop}
use remote_x.Session.Transfer.Messages.{
  accepted, awaits_accept, on_accept, on_verified, on_cancel, refuse_disabled, on_list, offer_file,
  offer_found, offer_expanded, on_fetch, handle, on_msg,
}
use remote_x.Session.Transfer.Sound.{
  core, HasCore, Inv, update-Inv, silently-Inv, track-Inv, fail-Inv, alloc_id-IsOwn, alloc_id-Inv,
}
use remote_x.Session.Transfer.Preserve.{KeepsInv, on_offer-Inv, on_chunk-Inv, on_done-Inv}

module _ (w : World) (p : FilePolicy) (T : Option ℕ → Type 0) where
  on_accept-Inv : (id from : ℕ) (m : FileManager) → Inv w p T m → Inv w p T (on_accept id from m).0
  unfolding on_accept core
  on_accept-Inv id from m h =
      let P : Outcome → Type 0 = λ o. Inv w p T o.0 in
      let m' : FileManager = silently id (accepted from) m in
      let h' : Inv w p T m' = silently-Inv w p T id (accepted from) m (λ t. refl) h in
      option_both P (lookup id m.transfers) (λ e. h)
        (λ t e.
          if_both P (not (awaits_accept t)) (λ e'. h)
            (λ e'.
              if_both P (ltb t.info.size from)
                (λ x. fail-Inv w p T id (codes "peer requested an invalid resume offset") m' h')
                (λ x.
                  update-Inv w p T id
                    (λ u. record u { info = record u.info { transferred = from } }) m' (λ u. refl)
                    h')))

  on_verified-Inv :
      (id : ℕ) (good : Bool) (m : FileManager) → Inv w p T m → Inv w p T (on_verified id good m).0
  unfolding on_verified core
  on_verified-Inv id true m h = update-Inv w p T id (λ t. finished t.path t) m (λ t. refl) h
  on_verified-Inv id false m h =
      fail-Inv w p T id (codes "verification failed on the receiving side") m h

  on_cancel-Inv : (id : ℕ) (m : FileManager) → Inv w p T m → Inv w p T (on_cancel id m).0
  unfolding on_cancel core
  on_cancel-Inv id m h =
      update-Inv w p T id dropped (silently id told_to_stop m) (λ t. refl)
        (silently-Inv w p T id told_to_stop m (λ t. refl) h)

  pub offer_file-Inv :
      (path name : Text) (now : ℕ) (m : FileManager)
      → Inv w p T m
      → KeepsInv w p T (offer_file w path name now m)
  unfolding offer_file KeepsInv HasCore
  offer_file-Inv path name now m h =
      option_both (KeepsInv w p T) (w.file_size path) (λ e. tt)
        (λ size e.
          track-Inv w p T (alloc_id m).0 name size true path pending now (alloc_id m).1
            (refl, alloc_id-IsOwn w p T m h) (alloc_id-Inv w p T m h))

  offer_found-Inv :
      (files : List (Text × Text)) (now : ℕ) (m : FileManager)
      → Inv w p T m
      → Inv w p T (offer_found w files now m).0
  unfolding offer_found KeepsInv
  offer_found-Inv [] now m h = h
  offer_found-Inv ((path, name) ∷ files) now m h =
      option_both (λ (o : Outcome). Inv w p T o.0) (offer_file w path name now m)
        (λ e. offer_found-Inv files now m h)
        (λ r e.
          offer_found-Inv files now r.0
            (subst (KeepsInv w p T) e (offer_file-Inv path name now m h)))

  offer_expanded-Inv :
      (id : ℕ) (files : List (Text × Text)) (now : ℕ) (m : FileManager)
      → Inv w p T m
      → Inv w p T (offer_expanded w id files now m).0
  unfolding offer_expanded reject
  offer_expanded-Inv id [] now m h = h
  offer_expanded-Inv id (f ∷ files) now m h = offer_found-Inv (f ∷ files) now m h

  on_fetch-Inv :
      (id : ℕ) (path : Text) (now : ℕ) (m : FileManager)
      → Inv w p T m
      → Inv w p T (on_fetch w id path now m).0
  unfolding on_fetch reject
  on_fetch-Inv id path now m h =
      let P : Outcome → Type 0 = λ o. Inv w p T o.0 in
      if_both P (is_viewer m.policy.side) (λ e. h)
        (λ e.
          option_both P (w.found path) (λ e'. h) (λ files e'. offer_expanded-Inv id files now m h))

  on_list-Inv : (path : Text) (m : FileManager) → Inv w p T m → Inv w p T (on_list w path m).0
  unfolding on_list
  on_list-Inv path m h =
      if_both (λ (o : Outcome). Inv w p T o.0) (is_viewer m.policy.side) (λ e. h) (λ e. h)

  refuse_disabled-Inv :
      (msg : FileMsg) (m : FileManager) → Inv w p T m → Inv w p T (refuse_disabled msg m).0
  unfolding refuse_disabled reject
  refuse_disabled-Inv (offer id name size) m h = h
  refuse_disabled-Inv (fetch id path) m h = h
  refuse_disabled-Inv msg m h = h

  handle-Inv :
      (fuel : ℕ) (msg : FileMsg) (now : ℕ) (m : FileManager)
      → Inv w p T m
      → KeepsInv w p T (handle w fuel msg now m)
  unfolding handle KeepsInv
  handle-Inv fuel (offer id name size) now m h = on_offer-Inv w p T id name size now m h
  handle-Inv fuel (accept id from) now m h = on_accept-Inv id from m h
  handle-Inv fuel (reject_file id why) now m h = fail-Inv w p T id why m h
  handle-Inv fuel (chunk id offset bytes) now m h = on_chunk-Inv w p T id offset bytes now m h
  handle-Inv fuel (done id digest) now m h = on_done-Inv w p T fuel id digest now m h
  handle-Inv fuel (verified id good) now m h = on_verified-Inv id good m h
  handle-Inv fuel (cancel id) now m h = on_cancel-Inv id m h
  handle-Inv fuel (list_dir path) now m h = on_list-Inv path m h
  handle-Inv fuel (dir_listing path entries error) now m h = h
  handle-Inv fuel (fetch id path) now m h = on_fetch-Inv id path now m h

  pub on_msg-Inv :
      (fuel : ℕ) (msg : FileMsg) (now : ℕ) (m : FileManager)
      → Inv w p T m
      → KeepsInv w p T (on_msg w fuel msg now m)
  unfolding on_msg KeepsInv
  on_msg-Inv fuel msg now m h =
      if_both (KeepsInv w p T) m.allowed (λ e. handle-Inv fuel msg now m h)
        (λ e. refuse_disabled-Inv msg m h)
