-- ===== src/Security/Channel.antt =====
-- crates/security/src/channel.rs: the ordered AEAD channel. The cipher (ChaCha20-Poly1305, a
-- third-party crate) is a parameter.
pub mod Order
mod Tests
use remote_x.Prelude.{
  ℕ, ◌+◌, ◌/◌, ◌%◌, ◌^◌, ◌≡◌, List, [], ◌∷◌, Option, none, some, ltb, if◌then◌else◌,
}
use remote_x.Prelude.Result.{Result, ok, err}

-- What the code relies on: a ciphertext opens to what was sealed, under the same key and nonce.
-- `authentic` and `bound` are ideal authenticity: what opens was sealed under that very key and nonce,
-- and no ciphertext belongs to two nonces of one key.
pub record Aead : Type 0 where
  pub encrypt : List ℕ → List ℕ → List ℕ → Option (List ℕ)
  pub decrypt : List ℕ → List ℕ → List ℕ → Option (List ℕ)
  pub opens : (k n p c : List ℕ) → encrypt k n p ≡ some c → decrypt k n c ≡ some p
  pub authentic : (k n p c : List ℕ) → decrypt k n c ≡ some p → encrypt k n p ≡ some c
  pub bound : (k m n p q c : List ℕ) → encrypt k m p ≡ some c → encrypt k n q ≡ some c → m ≡ n

pub data ChannelError : Type 0 where
  auth exhausted : ChannelError

pub record Sealer : Type 0 where
  pub key : List ℕ
  pub counter : ℕ

pub record Opener : Type 0 where
  pub key : List ℕ
  pub counter : ℕ

-- Four zero bytes and the counter, big-endian.
unfoldable pub nonce : ℕ → List ℕ
nonce c =
    0
    ∷ 0
    ∷ 0
    ∷ 0
    ∷ (c / 2 ^ 56 % 256)
    ∷ (c / 2 ^ 48 % 256)
    ∷ (c / 2 ^ 40 % 256)
    ∷ (c / 2 ^ 32 % 256)
    ∷ (c / 2 ^ 24 % 256)
    ∷ (c / 2 ^ 16 % 256)
    ∷ (c / 2 ^ 8 % 256)
    ∷ (c % 256)
    ∷ []

module _ (aead : Aead) where
  open aead use {encrypt, decrypt}

  -- The counter moves only when a ciphertext is returned.
  unfoldable pub seal : Sealer → List ℕ → Result (List ℕ) ChannelError × Sealer
  seal s plaintext = elim (encrypt s.key (nonce s.counter) plaintext) [
    | none ↦ (err auth, s)
    | some ct ↦
        if ltb (s.counter + 1) (2 ^ 64)
        then (ok ct, record s { counter = s.counter + 1 })
        else (err exhausted, s)
  ]

  -- The counter moves only on success.
  unfoldable pub opening : Opener → List ℕ → Result (List ℕ) ChannelError × Opener
  opening o ciphertext = elim (decrypt o.key (nonce o.counter) ciphertext) [
    | none ↦ (err auth, o)
    | some pt ↦
        if ltb (o.counter + 1) (2 ^ 64)
        then (ok pt, record o { counter = o.counter + 1 })
        else (err exhausted, o)
  ]

pub record SecureChannel : Type 0 where
  pub sealer : Sealer
  pub opener : Opener

unfoldable pub new : List ℕ → List ℕ → SecureChannel
new send_key recv_key = record {
  sealer = record { key = send_key; counter = 0 };
  opener = record { key = recv_key; counter = 0 };
}

unfoldable pub split : SecureChannel → Sealer × Opener
split c = (c.sealer, c.opener)
