-- ===== src/Session/Transfer/Access.antt =====
-- crates/session/src/transfer.rs: what an offer needs to be taken, and what is left when the session
-- may no longer move files.
use remote_x.Prelude.{
  ℕ, ◌+◌, ◌<◌, ◌≤◌, Option, none, All, Has, ◌≡◌, refl, subst, ap, ◌∙◌, Bool, true, false, not, ◌||◌,
  List, [], ◌∷◌, some, arith, if_both, option_both, Bool-cases, ◌⊎◌, inl, inr, ltb,
}
use remote_x.Prelude.Eq.{nat_eq, ◌==◌}
use remote_x.Common.Text.{Text, codes}
use remote_x.Common.Peer.{FileMsg, offer, fetch}
use remote_x.Map
use remote_x.Map.{lookup, contains, keys_where}
use remote_x.Map.Laws.{lookup-insert, passes, contains-keys_where}
use remote_x.Files.Transfer.{Disk}
use remote_x.Session.Transfer.Calls.{Call, downloads, run}
use remote_x.Session.Transfer.Sound.{Inv}
use remote_x.Session.Transfer.Preserve.Commands.{Noted, Leaves, run-Inv}
use remote_x.Session.Transfer.State.{
  FilePolicy, new, Transfer, FileManager, Out, Outcome, update, silently, is_open, is_viewer,
}
use remote_x.Session.Transfer.Incoming.{
  World, reject, from_peer, is_known, is_bad_name, expects, ask_user, on_offer, dropped,
  told_to_stop,
}
use remote_x.Session.Transfer.Messages.{refuse_disabled, on_msg}
use remote_x.Session.Transfer.Commands.{
  on_cancel_known, cancel_transfer, cancel_each, cancel_all, set_allowed,
}

-- The time until which offers are expected goes back to a call for a download, and was set to thirty
-- seconds from it.
unfoldable FromCall : List (ℕ × Call) → Option ℕ → Type 0
FromCall cs none = Unit
FromCall cs (some until) =
    (t : ℕ) × (path : Text) × Has (t, downloads path) cs × (until ≡ t + 30_000_000_000)

-- The calls of a list are noted where they are all among `cs`.
noted :
    (w : World) (p : FilePolicy) (cs ds : List (ℕ × Call))
    → ((c : ℕ × Call) → Has c ds → Has c cs)
    → All (Noted w p (FromCall cs)) ds
unfolding Noted FromCall
noted w p cs [] h = tt
noted w p cs ((now, downloads path) ∷ ds) h =
    ((now, path, h (now, downloads path) (inl refl), refl), noted w p cs ds (λ c k. h c (inr k)))
noted w p cs ((now, c) ∷ ds) h = (tt, noted w p cs ds (λ d k. h d (inr k)))

module _ (w : World) (id : ℕ) (name : Text) (size now : ℕ) (m : FileManager) where
  -- The offer is turned down with a message, and nothing changes.
  unfoldable pub IsRefused : Outcome → Type 0
  IsRefused o = (why : Text) × (o ≡ reject id why m)

  -- The user asked for a download less than thirty seconds ago, in nanoseconds.
  unfoldable pub WasAsked : List (ℕ × Call) → Type 0
  WasAsked cs = (t : ℕ) × (path : Text) × Has (t, downloads path) cs × (now < t + 30_000_000_000)

  until-WasAsked :
      (cs : List (ℕ × Call)) (o : Option ℕ)
      → FromCall cs o
      → (elim o as (λ x. Bool) [ none ↦ false | some until ↦ ltb now until ]) ≡ true
      → WasAsked cs
  unfolding FromCall WasAsked
  until-WasAsked cs none from e = cc
  until-WasAsked cs (some until) (t, path, has, at) e = (t, path, has, ground (arith, at, e))

  expects-WasAsked :
      (cs : List (ℕ × Call))
      → FromCall cs m.accept_offers_until
      → expects now m ≡ true
      → WasAsked cs
  unfolding expects
  expects-WasAsked cs from e = until-WasAsked cs m.accept_offers_until from e

  -- What an offer needs, after the calls of a list.
  unfoldable pub IsAdmitted : List (ℕ × Call) → Type 0
  IsAdmitted cs =
      (from_peer id m ≡ true)
      × (is_known id m ≡ false)
      × (is_bad_name w name ≡ false)
      × (size ≤ m.policy.max_file_size)
      × (is_viewer m.policy.side ≡ true → WasAsked cs)

  -- After any calls and messages, an offer is refused and changes nothing, unless its id is one of the
  -- peer's and not in use, its name acceptable, its size within the limit and, on the viewer's side, the
  -- user asked for a download less than thirty seconds before; and then a host that asks before
  -- receiving only asks.
  pub on_offer-IsAdmitted :
      (p : FilePolicy) (fuel : ℕ) (cs : List (ℕ × Call)) (allowed : Bool) (disk : Disk)
      → run w fuel cs (new p allowed disk) ≡ some m
      → IsRefused (on_offer w id name size now m)
        ⊎ (IsAdmitted cs
            × (is_viewer m.policy.side ≡ false
                → m.policy.ask_before_receiving ≡ true
                → on_offer w id name size now m ≡ ask_user id name size m))
  unfolding on_offer IsRefused IsAdmitted Leaves Inv FromCall new Map.empty
  on_offer-IsAdmitted p fuel cs allowed disk ends =
      let known : expects now m ≡ true → WasAsked cs =
        expects-WasAsked cs
          (subst (Leaves w p (FromCall cs)) ends (
            run-Inv w p (FromCall cs) fuel cs (new p allowed disk) (noted w p cs cs (λ c h. h))
              ((refl, tt), tt, tt))).0.1 in
      let P : Outcome → Type 0 = λ o.
        IsRefused o
        ⊎ (IsAdmitted cs
            × (is_viewer m.policy.side ≡ false
                → m.policy.ask_before_receiving ≡ true
                → o ≡ ask_user id name size m)) in
      if_both P (not (from_peer id m) || is_known id m)
        (λ e. inl (codes "invalid transfer id", refl))
        (λ e.
          if_both P (is_bad_name w name || ltb m.policy.max_file_size size)
            (λ e'. inl (codes "file not acceptable", refl))
            (λ e'.
              let mine : from_peer id m ≡ true = ground (arith, e) in
              let unused : is_known id m ≡ false = ground (arith, e) in
              let good : is_bad_name w name ≡ false = ground (arith, e') in
              let small : size ≤ m.policy.max_file_size = ground (arith, e') in
              if_both P (is_viewer m.policy.side)
                (λ v.
                  if_both P (expects now m)
                    (λ x.
                      inr ((mine, unused, good, small, λ u. known x), λ u. ground (arith, u, v)))
                    (λ x. inl (codes "unsolicited transfer", refl)))
                (λ v.
                  if_both P m.policy.ask_before_receiving
                    (λ x. inr ((mine, unused, good, small, λ u. ground (arith, u, v)), λ u a. refl))
                    (λ x. inr (
                      (mine, unused, good, small, λ u. ground (arith, u, v)),
                      λ u a. ground (arith, a, x),
                    )))))

-- Whether a transfer has not come to its end.
abbrev unfinished : ℕ → Transfer → Bool
unfinished id t = is_open t.info.status

lookup-update-dropped :
    (id j : ℕ) (m : FileManager)
    → passes unfinished j (lookup j m.transfers) ≡ false
    → passes unfinished j (lookup j (update id dropped m).0.transfers) ≡ false
unfolding update is_open
lookup-update-dropped id j m h =
    option_both (λ (o : Outcome). passes unfinished j (lookup j o.0.transfers) ≡ false)
      (lookup id m.transfers) (λ e. h)
      (λ t e. ground (arith, lookup-insert id j (dropped t) m.transfers, h))

lookup-silently-told :
    (id j : ℕ) (m : FileManager)
    → passes unfinished j (lookup j m.transfers) ≡ false
    → passes unfinished j (lookup j (silently id told_to_stop m).transfers) ≡ false
unfolding silently is_open
lookup-silently-told id j m h =
    option_both (λ (o : FileManager). passes unfinished j (lookup j o.transfers) ≡ false)
      (lookup id m.transfers) (λ e. h)
      (λ t e.
        ground (arith, lookup-insert id j (told_to_stop t) m.transfers, h, e, nat_eq.beq_iff id j))

-- What is dropped has come to its end, and so has what was never there.
dropped-ends :
    (id : ℕ) (m : FileManager)
    → passes unfinished id (lookup id (update id dropped m).0.transfers) ≡ false
unfolding update is_open
dropped-ends id m =
    option_both (λ (o : Outcome). passes unfinished id (lookup id o.0.transfers) ≡ false)
      (lookup id m.transfers) (λ e. ground (arith, e))
      (λ t e. ground (arith, lookup-insert id id (dropped t) m.transfers, nat_eq.beq_iff id id))

cancel_transfer-keeps :
    (id j : ℕ) (m : FileManager)
    → passes unfinished j (lookup j m.transfers) ≡ false
    → passes unfinished j (lookup j (cancel_transfer id m).0.transfers) ≡ false
unfolding cancel_transfer on_cancel_known
cancel_transfer-keeps id j m h =
    if_both (λ (o : Outcome). passes unfinished j (lookup j o.0.transfers) ≡ false) (is_known id m)
      (λ e. lookup-update-dropped id j (silently id told_to_stop m) (lookup-silently-told id j m h))
      (λ e. h)

cancel_transfer-ends :
    (id : ℕ) (m : FileManager)
    → passes unfinished id (lookup id (cancel_transfer id m).0.transfers) ≡ false
unfolding cancel_transfer on_cancel_known is_known
cancel_transfer-ends id m =
    if_both (λ (o : Outcome). passes unfinished id (lookup id o.0.transfers) ≡ false)
      (is_known id m) (λ e. dropped-ends id (silently id told_to_stop m)) (λ e. ground (arith, e))

cancel_each-ends :
    (ids : List ℕ) (j : ℕ) (m : FileManager)
    → (contains j ids ≡ true) ⊎ (passes unfinished j (lookup j m.transfers) ≡ false)
    → passes unfinished j (lookup j (cancel_each ids m).0.transfers) ≡ false
unfolding cancel_each contains
cancel_each-ends [] j m (inl h) = ground (arith, h)
cancel_each-ends [] j m (inr h) = h
cancel_each-ends (id ∷ ids) j m (inr h) =
    cancel_each-ends ids j (cancel_transfer id m).0 (inr (cancel_transfer-keeps id j m h))
cancel_each-ends (id ∷ ids) j m (inl h) = elim (Bool-cases (id == j)) [
  | inl b ↦ cancel_each-ends ids j (cancel_transfer id m).0 (
      inr (
        subst (λ i. passes unfinished i (lookup i (cancel_transfer id m).0.transfers) ≡ false)
          ((nat_eq.beq_iff id j).0 b) (cancel_transfer-ends id m)))
  | inr b ↦ cancel_each-ends ids j (cancel_transfer id m).0 (inl (ground (arith, b, h)))
]

update-allowed :
    (id : ℕ) (f : Transfer → Transfer) (m : FileManager) → (update id f m).0.allowed ≡ m.allowed
unfolding update
update-allowed id f m =
    option_both (λ (o : Outcome). o.0.allowed ≡ m.allowed) (lookup id m.transfers) (λ e. refl)
      (λ t e. refl)

silently-allowed :
    (id : ℕ) (f : Transfer → Transfer) (m : FileManager) → (silently id f m).allowed ≡ m.allowed
unfolding silently
silently-allowed id f m =
    option_both (λ (o : FileManager). o.allowed ≡ m.allowed) (lookup id m.transfers) (λ e. refl)
      (λ t e. refl)

cancel_each-allowed : (ids : List ℕ) (m : FileManager) → (cancel_each ids m).0.allowed ≡ m.allowed
unfolding cancel_each cancel_transfer on_cancel_known
cancel_each-allowed [] m = refl
cancel_each-allowed (id ∷ ids) m =
    cancel_each-allowed ids (cancel_transfer id m).0
    ∙ if_both (λ (o : Outcome). o.0.allowed ≡ m.allowed) (is_known id m)
        (λ e.
          update-allowed id dropped (silently id told_to_stop m)
          ∙ silently-allowed id told_to_stop m)
        (λ e. refl)

refuse_disabled-same : (msg : FileMsg) (m : FileManager) → (refuse_disabled msg m).0 ≡ m
unfolding refuse_disabled reject
refuse_disabled-same (offer id name size) m = refl
refuse_disabled-same (fetch id path) m = refl
refuse_disabled-same msg m = refl

on_msg-disallowed :
    (w : World) (fuel : ℕ) (msg : FileMsg) (now : ℕ) (m : FileManager)
    → m.allowed ≡ false
    → (outs : List Out) × (on_msg w fuel msg now m ≡ some (m, outs))
unfolding on_msg
on_msg-disallowed w fuel msg now m h =
    if_both (λ o. (outs : List Out) × (o ≡ some (m, outs))) m.allowed (λ e. ground (arith, e, h))
      (λ e. (
        (refuse_disabled msg m).1,
        ap (λ n. some (n, (refuse_disabled msg m).1)) (refuse_disabled-same msg m),
      ))

-- When the session may no longer move files, the status of every transfer is one of an end: none is
-- pending, active or paused. And no message of the peer then changes anything. Of the mark of a
-- download that waits for a free slot nothing is said.
pub set_allowed-ends :
    (w : World) (m : FileManager)
    → ((id : ℕ) (t : Transfer)
        → lookup id (set_allowed false m).0.transfers ≡ some t
        → is_open t.info.status ≡ false)
      × ((fuel : ℕ) (msg : FileMsg) (now : ℕ)
          → (outs : List Out) × (on_msg w fuel msg now (set_allowed false m).0
              ≡ some ((set_allowed false m).0, outs)))
unfolding set_allowed cancel_all
set_allowed-ends w m =
    let ids : List ℕ = keys_where (λ id t. is_open t.info.status) m.transfers in
    let m' : FileManager = record m { allowed = false } in
    (
      λ id t e. ground (
        arith,
        e,
        cancel_each-ends ids id m'
            (elim (Bool-cases (passes unfinished id (lookup id m.transfers))) [
              | inl b ↦ inl (contains-keys_where (λ i u. is_open u.info.status) id m.transfers ∙ b)
              | inr b ↦ inr b
            ]),
      ),
      λ fuel msg now.
          on_msg-disallowed w fuel msg now (cancel_each ids m').0 (cancel_each-allowed ids m'),
    )
