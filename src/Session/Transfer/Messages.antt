-- ===== src/Session/Transfer/Messages.antt =====
-- crates/session/src/transfer.rs: what the peer's messages do.
use remote_x.Prelude.{
  ℕ, Bool, true, false, ◌&&◌, not, List, [], ◌∷◌, Option, none, some, ltb, if◌then◌else◌,
}
use remote_x.Prelude.Eq.{nat_eq}
use remote_x.Common.Text.{Text, codes, text_eq}
use remote_x.Common.Peer.{
  FileMsg, offer, accept, reject_file, chunk, done, verified, cancel, list_dir, dir_listing, fetch,
}
use remote_x.Map.{lookup}
use remote_x.Session.Transfer.State.{
  pending, active, Transfer, FileManager, send, listing_event, spawn_stream, Outcome, ◌>>◌,
  is_viewer, alloc_id, update, fail, track, silently,
}
use remote_x.Session.Transfer.Incoming.{
  World, reject, finished, dropped, told_to_stop, on_offer, on_chunk, on_done,
}

abbrev pub accepted : ℕ → Transfer → Transfer
accepted from t = record t { info = record t.info { status = active }; resume_from = from }

unfoldable pub awaits_accept : Transfer → Bool
awaits_accept t = t.info.upload && (elim t.info.status [ pending ↦ true | _ ↦ false ])

unfoldable pub on_accept : ℕ → ℕ → FileManager → Outcome
unfolding silently update fail awaits_accept
on_accept id from m = elim (lookup id m.transfers) [
  | none ↦ (m, [])
  | some t ↦
      if not (awaits_accept t)
      then (m, [])
      else (let m' = silently id (accepted from) m in
          if ltb t.info.size from
          then fail id (codes "peer requested an invalid resume offset") m'
          else update id (λ u. record u { info = record u.info { transferred = from } }) m'
            >> (λ m''. (m'', spawn_stream id t.path from ∷ [])))
]

unfoldable pub on_verified : ℕ → Bool → FileManager → Outcome
unfolding update fail
on_verified id true m = update id (λ t. finished t.path t) m
on_verified id false m = fail id (codes "verification failed on the receiving side") m

unfoldable pub on_cancel : ℕ → FileManager → Outcome
unfolding silently update
on_cancel id m = update id dropped (silently id told_to_stop m)

unfoldable pub refuse_disabled : FileMsg → FileManager → Outcome
unfolding reject
refuse_disabled (offer id name size) m = reject id (codes "file transfer disabled") m
refuse_disabled (fetch id path) m = reject id (codes "file transfer disabled") m
refuse_disabled msg m = (m, [])

module _ (w : World) where
  unfoldable pub on_list : Text → FileManager → Outcome
  on_list path m =
      if is_viewer m.policy.side
      then (m, [])
      else (let (entries, error) = w.list_directory path in
          (m, send (dir_listing path entries error) ∷ []))

  -- An offer of one file, or the error that reading its size gave.
  unfoldable pub offer_file : Text → Text → ℕ → FileManager → Option Outcome
  unfolding alloc_id track
  offer_file path name now m = elim (w.file_size path) [
    | none ↦ none
    | some size ↦
        let (id, m') = alloc_id m in
        some (
          track id name size true path pending now m'
          >> (λ m''. (m'', send (offer id name size) ∷ [])))
  ]

  -- A file that cannot be read is left out.
  unfoldable pub offer_found : List (Text × Text) → ℕ → FileManager → Outcome
  offer_found [] now m = (m, [])
  offer_found ((path, name) ∷ files) now m = elim (offer_file path name now m) [
    | none ↦ offer_found files now m
    | some (m', outs) ↦ (m', outs) >> offer_found files now
  ]

  -- What a fetched path expands to, offered.
  unfoldable pub offer_expanded : ℕ → List (Text × Text) → ℕ → FileManager → Outcome
  unfolding reject offer_found
  offer_expanded id [] now m = reject id (codes "nothing to send") m
  offer_expanded id (f ∷ files) now m = offer_found (f ∷ files) now m

  unfoldable pub on_fetch : ℕ → Text → ℕ → FileManager → Outcome
  unfolding reject offer_expanded
  on_fetch id path now m =
      if is_viewer m.policy.side
      then reject id (codes "not supported") m
      else (elim (w.found path) [
        | none ↦ reject id (codes "not found") m
        | some files ↦ offer_expanded id files now m
      ])

  unfoldable pub handle : ℕ → FileMsg → ℕ → FileManager → Option Outcome
  unfolding on_offer on_accept on_chunk on_done on_verified on_cancel on_list on_fetch fail
  handle fuel (offer id name size) now m = some (on_offer w id name size now m)
  handle fuel (accept id from) now m = some (on_accept id from m)
  handle fuel (reject_file id why) now m = some (fail id why m)
  handle fuel (chunk id offset bytes) now m = some (on_chunk w id offset bytes now m)
  handle fuel (done id digest) now m = on_done w fuel id digest now m
  handle fuel (verified id good) now m = some (on_verified id good m)
  handle fuel (cancel id) now m = some (on_cancel id m)
  handle fuel (list_dir path) now m = some (on_list path m)
  handle fuel (dir_listing path entries error) now m =
      some (m, listing_event path entries error ∷ [])
  handle fuel (fetch id path) now m = some (on_fetch id path now m)

  unfoldable pub on_msg : ℕ → FileMsg → ℕ → FileManager → Option Outcome
  unfolding handle refuse_disabled
  on_msg fuel msg now m = if m.allowed then handle fuel msg now m else some (refuse_disabled msg m)
