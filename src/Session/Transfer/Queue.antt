-- ===== src/Session/Transfer/Queue.antt =====
-- crates/session/src/transfer.rs: `start_queued`, the loop that starts waiting downloads.
use remote_x.Prelude.{
  ℕ, zero, suc, ◌+◌, ◌≤◌, ◌<◌, ◌≡◌, refl, sym, subst, ap, ◌∙◌, true, false, not, [], ◌∷◌, Option,
  none, some, arith, if_both, option_both, Bool-cases, ◌⊎◌, inl, inr, ltb, leb,
}
use remote_x.Prelude.Eq.{nat_eq, ◌==◌}
use remote_x.Prelude.Result.{Result, ok, err, result_both}
use remote_x.Common.Text.{Text}
use remote_x.Map.{Map, lookup, insert, remove}
use remote_x.Files.Names.{FileError, sanitize_relative}
use remote_x.Files.Transfer.{Disk, IncomingFile, open_file}
use remote_x.Session.Transfer.State.{
  FilePolicy, Transfer, FileManager, transfer_event, Outcome, bit, update, active_count,
}
use remote_x.Session.Transfer.Incoming.{
  World, is_queued, next_queued, is_known, started, open_incoming, ensure_tracked, start_incoming,
  start_opened, start_queued,
}
use remote_x.Session.Transfer.Sound.{IsFit, Inv, Free}
use remote_x.Session.Transfer.Preserve.{FitNext, next_queued-FitNext, start_incoming-Inv}

-- How many downloads wait.
unfoldable pub count_queued : Map ℕ Transfer → ℕ
unfolding is_queued
count_queued [] = 0
count_queued ((id, t) ∷ m) = bit (is_queued t) + count_queued m

count_queued-remove-le : (id : ℕ) (m : Map ℕ Transfer) → count_queued (remove id m) ≤ count_queued m
unfolding count_queued remove
count_queued-remove-le id [] = omega arith
count_queued-remove-le id ((j, u) ∷ m) = ground (arith, count_queued-remove-le id m)

-- Taking the next download out leaves fewer.
count_queued-remove-next :
    (id : ℕ) (t : Transfer) (m : Map ℕ Transfer)
    → next_queued m ≡ some (id, t)
    → count_queued (remove id m) < count_queued m
unfolding count_queued remove next_queued
count_queued-remove-next id t [] e = cc
count_queued-remove-next id t ((j, u) ∷ m) e =
    ground (arith, count_queued-remove-next id t m, count_queued-remove-le j m, nat_eq.beq_iff j j)

lookup-next_queued :
    (id : ℕ) (t : Transfer) (m : Map ℕ Transfer)
    → next_queued m ≡ some (id, t)
    → (u : Transfer) × (lookup id m ≡ some u)
unfolding lookup next_queued
lookup-next_queued id t [] e = cc
lookup-next_queued id t ((j, u) ∷ m) e = elim (Bool-cases (j == id)) [
  | inl b ↦ (u, ground (arith, b))
  | inr b ↦
      let r : (v : Transfer) × (lookup id m ≡ some v) =
        lookup-next_queued id t m (ground (arith, b, e, nat_eq.beq_iff j id)) in
      (r.0, ground (arith, b, r.1))
]

-- The loop has come to its end: every slot is taken, or nothing waits.
unfoldable pub IsSettled : Option Outcome → Type 0
IsSettled none = ⊥
IsSettled (some r) =
    (leb r.0.policy.max_active (active_count r.0) ≡ true) ⊎ (next_queued r.0.transfers ≡ none)

unfoldable IsOpened : Result IncomingFile FileError → Type 0
IsOpened (ok file) = Unit
IsOpened (err e) = ⊥

-- Starting a transfer that is tracked takes it out of the queue.
count_queued-started :
    (id : ℕ) (file : IncomingFile) (u : Transfer) (m : FileManager)
    → lookup id m.transfers ≡ some u
    → count_queued (update id (started file) m).0.transfers ≡ count_queued (remove id m.transfers)
unfolding update count_queued is_queued insert
count_queued-started id file u m e =
    subst
      (λ o.
        count_queued
          (elim o as (λ x. Outcome) [
            | none ↦ (m, [])
            | some t ↦ (
              record m { transfers = insert id (started file t) m.transfers },
              transfer_event (started file t).info ∷ [],
            )
          ]).0.transfers
        ≡ count_queued (remove id m.transfers))
      (sym e) (omega arith)

module _ (w : World) (p : FilePolicy) (opens : (name : Text) → w.openable name ≡ true) where
  open_incoming-IsOpened :
      (id : ℕ) (name : Text) (size : ℕ) (m : FileManager)
      → IsFit w p id name size
      → Inv w p Free m
      → IsOpened (open_incoming w name size m).0
  unfolding open_incoming open_file IsFit Inv IsOpened
  open_incoming-IsOpened id name size m c h =
      let P : Result IncomingFile FileError × FileManager → Type 0 = λ r. IsOpened r.0 in
      let small : ltb m.policy.max_file_size size ≡ false =
        ground (arith, ap (λ (q : FilePolicy). q.max_file_size) h.0.0, c.2) in
      if_both P (ltb m.policy.max_file_size size) (λ e. ground (arith, e, small))
        (λ e.
          result_both P (sanitize_relative w.is_normal name)
            (λ parts e'.
              if_both P (not (w.openable name)) (λ x. ground (arith, x, opens name))
                (λ x.
                  if_both (λ (r : Result IncomingFile FileError × Disk). IsOpened r.0)
                    (ltb m.policy.max_file_size size) (λ y. ground (arith, y, small)) (λ y. tt)))
            (λ x e'. ground (arith, e', c.1)))

  open_incoming-transfers :
      (name : Text) (size : ℕ) (m : FileManager)
      → (open_incoming w name size m).1.transfers ≡ m.transfers
  unfolding open_incoming
  open_incoming-transfers name size m =
      let P : Result IncomingFile FileError × FileManager → Type 0 =
        λ r. r.1.transfers ≡ m.transfers in
      if_both P (ltb m.policy.max_file_size size) (λ e. refl)
        (λ e.
          result_both P (sanitize_relative w.is_normal name)
            (λ parts e'. if_both P (not (w.openable name)) (λ x. refl) (λ x. refl)) (λ x e'. refl))

  ensure_tracked-known :
      (id : ℕ) (name : Text) (size now : ℕ) (u : Transfer) (m : FileManager)
      → lookup id m.transfers ≡ some u
      → ensure_tracked w id name size now m ≡ (m, [])
  unfolding ensure_tracked is_known
  ensure_tracked-known id name size now u m e = ground (arith, e)

  -- A download that is tracked and whose file was opened leaves the queue.
  start_opened-next :
      (id : ℕ) (t : Transfer) (now : ℕ) (ts : Map ℕ Transfer)
      (r : Result IncomingFile FileError × FileManager)
      → IsOpened r.0
      → r.1.transfers ≡ ts
      → next_queued ts ≡ some (id, t)
      → count_queued (start_opened w id t.info.name t.info.size now r).0.transfers < count_queued ts
  unfolding start_opened IsOpened
  start_opened-next id t now ts (err why, m) h same e = elim h [ ]
  start_opened-next id t now ts (ok file, m) h same e =
      let seen : (u : Transfer) × (lookup id ts ≡ some u) = lookup-next_queued id t ts e in
      let known : lookup id m.transfers ≡ some seen.0 = ap (lookup id) same ∙ seen.1 in
      let less : count_queued (remove id ts) < count_queued ts =
        count_queued-remove-next id t ts e in
      subst
        (λ (o : Outcome). count_queued (update id (started file) o.0).0.transfers < count_queued ts)
        (sym (ensure_tracked-known id t.info.name t.info.size now seen.0 m known))
        (ground (
          arith,
          less,
          count_queued-started id file seen.0 m known,
          ap (λ us. count_queued (remove id us)) same,
        ))

  start_incoming-next :
      (id : ℕ) (t : Transfer) (now : ℕ) (m : FileManager)
      → Inv w p Free m
      → next_queued m.transfers ≡ some (id, t)
      → count_queued (start_incoming w id t.info.name t.info.size now m).0.transfers
        < count_queued m.transfers
  unfolding start_incoming Inv FitNext
  start_incoming-next id t now m h e =
      start_opened-next id t now m.transfers (open_incoming w t.info.name t.info.size m)
        (open_incoming-IsOpened id t.info.name t.info.size m
          (subst (FitNext w p Free) e (next_queued-FitNext w p Free m.transfers h.1)) h)
        (open_incoming-transfers t.info.name t.info.size m) e

  -- If every file that is asked for can be opened, then from sound books (`Inv`) and with fuel for each
  -- download that waits, the loop of `start_queued` comes to its end: every slot is taken, or nothing
  -- waits.
  pub start_queued-settles :
      (fuel now : ℕ) (m : FileManager)
      → Inv w p Free m
      → count_queued m.transfers < fuel
      → IsSettled (start_queued w fuel now m)
  unfolding start_queued IsSettled Inv FitNext
  start_queued-settles zero now m h more = ground arith
  start_queued-settles (suc fuel) now m h more =
      if_both IsSettled (leb m.policy.max_active (active_count m)) (λ e. inl e)
        (λ e.
          option_both IsSettled (next_queued m.transfers) (λ e'. inr e')
            (λ next e'.
              let m' : FileManager =
                (start_incoming w next.0 next.1.info.name next.1.info.size now m).0 in
              let fit : IsFit w p next.0 next.1.info.name next.1.info.size =
                subst (FitNext w p Free) e' (next_queued-FitNext w p Free m.transfers h.1) in
              let h' : Inv w p Free m' =
                start_incoming-Inv w p Free next.0 next.1.info.name next.1.info.size now m fit h in
              let ends : IsSettled (start_queued w fuel now m') =
                start_queued-settles fuel now m' h'
                  (ground (arith, more, start_incoming-next next.0 next.1 now m h e')) in
              option_both IsSettled (start_queued w fuel now m') (λ x. subst IsSettled x ends)
                (λ o x. subst IsSettled x ends)))
