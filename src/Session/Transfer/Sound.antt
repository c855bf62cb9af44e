-- ===== src/Session/Transfer/Sound.antt =====
-- crates/session/src/transfer.rs: the invariant of the file manager's books: whose ids are whose, and
-- that no download is tracked whose name or size was not accepted.
use remote_x.Prelude.{
  ℕ, ◌%◌, ◌≤◌, ◌≡◌, refl, sym, subst, ap, Bool, true, false, not, arith, Bool-cases, option_both,
  inl, inr, Option,
}
use remote_x.Prelude.Eq.{nat_eq}
use remote_x.Common.Text.{Text}
use remote_x.Map.{lookup}
use remote_x.Map.Entries.{Every, lookup-Every, insert-Every}
use remote_x.Session.Transfer.State.{
  FilePolicy, TransferStatus, Transfer, FileManager, Outcome, ◌>>◌, is_viewer, bit, update,
  silently, track, fresh, alloc_id, failing, fail,
}
use remote_x.Session.Transfer.Incoming.{World, is_bad_name}

-- What of a transfer no operation changes.
abbrev pub Core : Type 0
Core = ℕ × Text × ℕ × Bool

unfoldable pub core : Transfer → Core
core t = (t.info.id, t.info.name, t.info.size, t.info.upload)

module _ (w : World) (p : FilePolicy) where
  -- An offer that may be taken: an id of the peer's, an acceptable name and an allowed size.
  unfoldable pub IsFit : ℕ → Text → ℕ → Type 0
  IsFit id name size =
      (id % 2 ≡ bit (not (is_viewer p.side)))
      × (is_bad_name w name ≡ false)
      × (size ≤ p.max_file_size)

  unfoldable pub HasCore : ℕ → Core → Type 0
  unfolding IsFit
  HasCore id (id', name, size, true) = (id' ≡ id) × (id % 2 ≡ bit (is_viewer p.side))
  HasCore id (id', name, size, false) = (id' ≡ id) × IsFit id name size

  -- A transfer under its own id: this side's for an upload, and for a download the peer's, with an
  -- acceptable name and an allowed size.
  unfoldable pub IsSound : ℕ → Transfer → Type 0
  unfolding HasCore
  IsSound id t = HasCore id (core t)

  unfoldable pub IsAsked : ℕ → Text × ℕ → Type 0
  unfolding IsFit
  IsAsked id (name, size) = IsFit id name size

  -- A step that keeps every transfer's core keeps it sound.
  same_core-IsSound : (id : ℕ) (t u : Transfer) → core u ≡ core t → IsSound id t → IsSound id u
  unfolding IsSound
  same_core-IsSound id t u e h = subst (HasCore id) (sym e) h

-- Nothing is known.
abbrev pub Free : Option ℕ → Type 0
Free u = Unit

module _ (w : World) (p : FilePolicy) (T : Option ℕ → Type 0) where
  -- `T` is what is known of how long offers are expected.
  unfoldable pub Inv : FileManager → Type 0
  Inv m =
      ((m.policy ≡ p) × T m.accept_offers_until)
      × Every (IsSound w p) m.transfers
      × Every (IsAsked w p) m.pending_approval

  pub update-Inv :
      (id : ℕ) (f : Transfer → Transfer) (m : FileManager)
      → ((t : Transfer) → core (f t) ≡ core t)
      → Inv m
      → Inv (update id f m).0
  unfolding Inv update
  update-Inv id f m keeps h =
      option_both (λ (o : Outcome). Inv o.0) (lookup id m.transfers) (λ e. h)
        (λ t e. (
          h.0,
          insert-Every (IsSound w p) id (f t) m.transfers
              (same_core-IsSound w p id t (f t) (keeps t)
                (lookup-Every (IsSound w p) id t m.transfers h.1 e))
              h.1,
          h.2,
        ))

  pub silently-Inv :
      (id : ℕ) (f : Transfer → Transfer) (m : FileManager)
      → ((t : Transfer) → core (f t) ≡ core t)
      → Inv m
      → Inv (silently id f m)
  unfolding Inv silently
  silently-Inv id f m keeps h =
      option_both Inv (lookup id m.transfers) (λ e. h)
        (λ t e. (
          h.0,
          insert-Every (IsSound w p) id (f t) m.transfers
              (same_core-IsSound w p id t (f t) (keeps t)
                (lookup-Every (IsSound w p) id t m.transfers h.1 e))
              h.1,
          h.2,
        ))

  pub track-Inv :
      (id : ℕ) (name : Text) (size : ℕ) (upload : Bool) (path : Text) (s : TransferStatus) (now : ℕ)
      (m : FileManager)
      → HasCore w p id (id, name, size, upload)
      → Inv m
      → Inv (track id name size upload path s now m).0
  unfolding Inv track fresh IsSound core
  track-Inv id name size upload path s now m c h = (
    h.0,
    insert-Every (IsSound w p) id (fresh id name size upload path s now) m.transfers c h.1,
    h.2,
  )

  -- One step after another keeps what each of them keeps.
  pub then-Inv :
      (r : Outcome) (f : FileManager → Outcome)
      → Inv r.0
      → ((m : FileManager) → Inv m → Inv (f m).0)
      → Inv (r >> f).0
  then-Inv r f h k = k r.0 h

  pub fail-Inv : (id : ℕ) (why : Text) (m : FileManager) → Inv m → Inv (fail id why m).0
  unfolding fail failing core
  fail-Inv id why m = update-Inv id (failing why) m (λ t. refl)

  -- An id that this side gives out is its own, also after the count has wrapped around.
  pub alloc_id-IsOwn : (m : FileManager) → Inv m → (alloc_id m).0 % 2 ≡ bit (is_viewer p.side)
  unfolding alloc_id Inv
  alloc_id-IsOwn m h = elim (Bool-cases (is_viewer p.side)) [
    | inl e ↦ ground (arith, ap (λ (q : FilePolicy). is_viewer q.side) h.0.0)
    | inr e ↦ ground (arith, ap (λ (q : FilePolicy). is_viewer q.side) h.0.0)
  ]

  pub alloc_id-Inv : (m : FileManager) → Inv m → Inv (alloc_id m).1
  unfolding alloc_id Inv
  alloc_id-Inv m h = h
