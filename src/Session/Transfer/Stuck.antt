-- ===== src/Session/Transfer/Stuck.antt =====
-- crates/session/src/transfer.rs: `start_queued` where the next download's file cannot be opened:
-- `fail` leaves the download's `queued` mark, so the loop takes up the same download again.
use remote_x.Prelude.{
  ℕ, zero, suc, ◌≤◌, ◌<◌, ◌≡◌, refl, sym, subst, true, false, not, [], ◌∷◌, ◌++◌, Option, none,
  some, arith, if_both, option_both, ltb, leb,
}
use remote_x.Prelude.Eq.{nat_eq}
use remote_x.Prelude.Result.{Result, err, result_both}
use remote_x.Common.Text.{Text}
use remote_x.Map.{Map, lookup, insert, remove}
use remote_x.Files.Names.{FileError, too_large, io, sanitize_relative}
use remote_x.Files.Transfer.{IncomingFile}
use remote_x.Session.Transfer.State.{
  Transfer, FileManager, Outcome, update, active_count, fail, failing, count_active, is_active,
  transfer_event,
}
use remote_x.Session.Transfer.Incoming.{
  World, reject, file_error, is_queued, next_queued, open_incoming, start_incoming, start_opened,
  start_queued,
}

count_active-remove-le : (id : ℕ) (m : Map ℕ Transfer) → count_active (remove id m) ≤ count_active m
unfolding count_active remove
count_active-remove-le id [] = omega arith
count_active-remove-le id ((j, u) ∷ m) = ground (arith, count_active-remove-le id m)

remove-remove : (id : ℕ) (m : Map ℕ Transfer) → remove id (remove id m) ≡ remove id m
unfolding remove
remove-remove id [] = refl
remove-remove id ((j, u) ∷ m) = ground (arith, remove-remove id m)

-- The only download that waits is the next one.
next_queued-only :
    (id : ℕ) (t : Transfer) (m : Map ℕ Transfer)
    → lookup id m ≡ some t
    → is_queued t ≡ true
    → next_queued (remove id m) ≡ none
    → next_queued m ≡ some (id, t)
unfolding next_queued remove lookup
next_queued-only id t [] e q only = cc
next_queued-only id t ((j, u) ∷ m) e q only =
    ground (arith, next_queued-only id t m, nat_eq.beq_iff j id)

fail_known :
    (id : ℕ) (why : Text) (t : Transfer) (m : FileManager)
    → lookup id m.transfers ≡ some t
    → (fail id why m).0 ≡ record m { transfers = insert id (failing why t) m.transfers }
unfolding fail update
fail_known id why t m e =
    subst
      (λ o.
        (elim o as (λ x. Outcome) [
          | none ↦ (m, [])
          | some u ↦ (
            record m { transfers = insert id (failing why u) m.transfers },
            transfer_event (failing why u).info ∷ [],
          )
        ]).0
        ≡ record m { transfers = insert id (failing why t) m.transfers })
      (sym e) refl

-- What failing leaves as it was: the slots in use do not grow, and the download still waits.
failed-active_count :
    (id : ℕ) (why : Text) (t : Transfer) (m : FileManager)
    → active_count m < m.policy.max_active
    → active_count (record m { transfers = insert id (failing why t) m.transfers })
      < m.policy.max_active
unfolding active_count count_active insert failing is_active
failed-active_count id why t m free = omega (arith, free, count_active-remove-le id m.transfers)

lookup-insert-same :
    (id : ℕ) (t : Transfer) (m : Map ℕ Transfer) → lookup id (insert id t m) ≡ some t
unfolding lookup insert
lookup-insert-same id t m = ground (arith, nat_eq.beq_iff id id)

failing-is_queued :
    (why : Text) (t : Transfer) → is_queued t ≡ true → is_queued (failing why t) ≡ true
unfolding is_queued failing
failing-is_queued why t q = q

failed-only :
    (id : ℕ) (why : Text) (t : Transfer) (m : FileManager)
    → next_queued (remove id m.transfers) ≡ none
    → next_queued (remove id (insert id (failing why t) m.transfers)) ≡ none
unfolding insert remove
failed-only id why t m only =
    ground (arith, only, remove-remove id m.transfers, nat_eq.beq_iff id id)

module _ (w : World) where
  open_incoming-shut :
      (name : Text) (size : ℕ) (m : FileManager)
      → w.openable name ≡ false
      → (why : FileError) × (open_incoming w name size m ≡ (err why, m))
  unfolding open_incoming
  open_incoming-shut name size m shut =
      let P : Result IncomingFile FileError × FileManager → Type 0 =
        λ r. (why : FileError) × (r ≡ (err why, m)) in
      if_both P (ltb m.policy.max_file_size size) (λ e. (too_large, refl))
        (λ e.
          result_both P (sanitize_relative w.is_normal name)
            (λ parts e'.
              if_both P (not (w.openable name)) (λ x. (io, refl)) (λ x. ground (arith, x, shut)))
            (λ why e'. (why, refl)))

  -- Where the file cannot be opened, the transfer fails, and nothing else changes.
  start_incoming-fails :
      (id : ℕ) (t : Transfer) (now : ℕ) (m : FileManager)
      → lookup id m.transfers ≡ some t
      → w.openable t.info.name ≡ false
      → (why : Text) × ((start_incoming w id t.info.name t.info.size now m).0
          ≡ record m { transfers = insert id (failing why t) m.transfers })
  unfolding start_incoming start_opened reject
  start_incoming-fails id t now m e shut =
      let r : (why : FileError) × (open_incoming w t.info.name t.info.size m ≡ (err why, m)) =
        open_incoming-shut t.info.name t.info.size m shut in
      (
        file_error r.0,
        subst
            (λ q.
              (start_opened w id t.info.name t.info.size now q).0
              ≡ record m { transfers = insert id (failing (file_error r.0) t) m.transfers })
            (sym r.1) (fail_known id (file_error r.0) t m e),
      )

  failing-openable :
      (why : Text) (t : Transfer)
      → w.openable t.info.name ≡ false
      → w.openable (failing why t).info.name ≡ false
  unfolding failing
  failing-openable why t shut = shut

  -- A slot is free, one download waits, and its file cannot be opened: no fuel is enough.
  pub start_queued-stuck :
      (fuel now id : ℕ) (t : Transfer) (m : FileManager)
      → active_count m < m.policy.max_active
      → lookup id m.transfers ≡ some t
      → is_queued t ≡ true
      → next_queued (remove id m.transfers) ≡ none
      → w.openable t.info.name ≡ false
      → start_queued w fuel now m ≡ none
  unfolding start_queued
  start_queued-stuck zero now id t m free e q only shut = refl
  start_queued-stuck (suc fuel) now id t m free e q only shut =
      let r : (why : Text) × ((start_incoming w id t.info.name t.info.size now m).0
            ≡ record m { transfers = insert id (failing why t) m.transfers }) =
        start_incoming-fails id t now m e shut in
      let m' : FileManager = record m { transfers = insert id (failing r.0 t) m.transfers } in
      let rest : start_queued w fuel now m' ≡ none =
        start_queued-stuck fuel now id (failing r.0 t) m' (failed-active_count id r.0 t m free)
          (lookup-insert-same id (failing r.0 t) m.transfers) (failing-is_queued r.0 t q)
          (failed-only id r.0 t m only) (failing-openable r.0 t shut) in
      let n : FileManager = (start_incoming w id t.info.name t.info.size now m).0 in
      let stopped : start_queued w fuel now n ≡ none =
        subst (λ k. start_queued w fuel now k ≡ none) (sym r.1) rest in
      if_both (λ o. o ≡ none) (leb m.policy.max_active (active_count m))
        (λ x. ground (arith, x, free))
        (λ x.
          subst
            (λ (o : Option (ℕ × Transfer)).
              (elim o as (λ y. Option Outcome) [
                | none ↦ some (m, [])
                | some (i, u) ↦
                    let (n, outs) = start_incoming w i u.info.name u.info.size now m in
                    let more = start_queued w fuel now n in
                    elim more [ none ↦ none | some (n', more') ↦ some (n', outs ++ more') ]
              ])
              ≡ none)
            (sym (next_queued-only id t m.transfers e q only))
            (option_both (λ o. o ≡ none) (start_queued w fuel now n) (λ y. refl)
              (λ o y. cc (y, stopped))))
