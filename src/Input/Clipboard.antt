-- ===== src/Input/Clipboard.antt =====
-- crates/input/src/clipboard.rs: the clipboard that two computers keep the same. The backend, the
-- bytes of a text and SHA-256 are parameters.
pub mod Echo
mod Tests
use remote_x.Prelude.{
  ℕ, Bool, true, false, ◌||◌, List, [], ◌∷◌, Option, none, some, ltb, nat_beq, if◌then◌else◌,
  length,
}
use remote_x.Prelude.Eq.{Eq, ◌==◌}
use remote_x.Common.Text.{Text, byte_len}
use remote_x.Common.Peer.{ClipboardPayload, clip_text, clip_image}

-- `ClipboardBackend`. A read or a write may change the backend; a write says whether it was done.
pub record Backend (B : Type 0) : Type 0 where
  pub sequence : B → ℕ
  pub read : B → Option ClipboardPayload × B
  pub write : ClipboardPayload → B → Bool × B

pub record ClipboardSync (B : Type 0) (D : Type 0) : Type 0 where
  pub backend : B
  pub last_seq : ℕ
  pub suppressed : Option D
  pub last_sent : Option D
  pub max_bytes : ℕ

unfoldable pub size : ClipboardPayload → ℕ
size (clip_text t) = byte_len t
size (clip_image i) = length i

module _ {D : Type 0} (sha256 : List ℕ → D) (utf8 : Text → List ℕ) where
  unfoldable pub digest : ClipboardPayload → D
  digest (clip_text t) = sha256 (0 ∷ utf8 t)
  digest (clip_image i) = sha256 (1 ∷ i)

-- Whether an option holds just this value.
abbrev pub is_some {ℓ} : {D : Type ℓ} ⦃e : Eq D⦄ → D → Option D → Bool
is_some d none = false
is_some d (some c) = c == d

pub data Refused : Type 0 where
  too_large not_written : Refused

-- What happens to a clipboard: the system changes it, it is polled, or the peer sends content.
pub data Happening (B : Type 0) : Type 0 where
  changes : (B → B) → Happening B
  polls : Happening B
  receives : ClipboardPayload → Happening B

-- What was taken from the peer, also where the write failed, and what was sent to it.
pub data Moved : Type 0 where
  taken sent : ClipboardPayload → Moved

module _ {B : Type 0} {D : Type 0} where
  abbrev pub as_sent :
      Option ClipboardPayload × ClipboardSync B D → Option Moved × ClipboardSync B D
  as_sent (none, c) = (none, c)
  as_sent (some p, c) = (some (sent p), c)

  abbrev pub as_taken :
      ClipboardPayload → Option Refused × ClipboardSync B D → Option Moved × ClipboardSync B D
  as_taken p (none, c) = (some (taken p), c)
  as_taken p (some too_large, c) = (none, c)
  as_taken p (some not_written, c) = (some (taken p), c)

module _ {B : Type 0} {D : Type 0} ⦃e : Eq D⦄ (backend : Backend B) (sha256 : List ℕ → D)
    (utf8 : Text → List ℕ) where
  unfoldable pub new : B → ℕ → ClipboardSync B D
  new b max_bytes = record {
    backend = b;
    last_seq = backend.sequence b;
    suppressed = none;
    last_sent = none;
    max_bytes = max_bytes;
  }

  -- `poll_local` for the content that was read.
  unfoldable pub consider :
      ClipboardPayload → ClipboardSync B D → Option ClipboardPayload × ClipboardSync B D
  unfolding size digest
  consider content c =
      if nat_beq (size content) 0 || ltb c.max_bytes (size content)
      then (none, c)
      else (let d = digest sha256 utf8 content in
          if is_some d c.suppressed
          then (none, record c { suppressed = none })
          else if is_some d c.last_sent
          then (none, c)
          else (some content, record c { last_sent = some d }))

  -- New local content, for the peer.
  unfoldable pub poll_local : ClipboardSync B D → Option ClipboardPayload × ClipboardSync B D
  unfolding consider
  poll_local c =
      let seq = backend.sequence c.backend in
      if nat_beq seq c.last_seq
      then (none, c)
      else (let (r, b) = backend.read c.backend in
          let c' = record c { last_seq = seq; backend = b } in
          elim r [ none ↦ (none, c') | some content ↦ consider content c' ])

  -- Content from the peer.
  unfoldable pub apply_remote :
      ClipboardPayload → ClipboardSync B D → Option Refused × ClipboardSync B D
  unfolding size digest
  apply_remote payload c =
      if ltb c.max_bytes (size payload)
      then (some too_large, c)
      else (let d = digest sha256 utf8 payload in
          let (done, b) = backend.write payload c.backend in
          let c' = record c { suppressed = some d; last_sent = some d; backend = b } in
          if done
          then (none, record c' { last_seq = backend.sequence b })
          else (some not_written, c'))

  unfoldable pub step : Happening B → ClipboardSync B D → Option Moved × ClipboardSync B D
  unfolding poll_local apply_remote
  step (changes f) c = (none, record c { backend = f c.backend })
  step polls c = as_sent (poll_local c)
  step (receives p) c = as_taken p (apply_remote p c)

  unfoldable pub moves : List (Happening B) → ClipboardSync B D → List Moved
  unfolding step
  moves [] c = []
  moves (h ∷ hs) c =
      let (m, c') = step h c in let rest = moves hs c' in elim m [ none ↦ rest | some x ↦ x ∷ rest ]
