-- ===== src/Security/Pake.antt =====
-- crates/security/src/pake.rs: the password-authenticated key exchange. SPAKE2, SHA-256, HKDF, HMAC
-- and the bytes of a text are parameters; the randomness of a start is an argument.
use remote_x.Prelude.{
  ℕ, ◌*◌, ◌/◌, ◌%◌, ◌^◌, Bool, List, [], ◌∷◌, ◌++◌, Option, none, some, length, take, drop,
}
use remote_x.Prelude.Eq.{◌==◌}
use remote_x.Common.Text.{Text, codes, text_eq}
use remote_x.Security.Channel
use remote_x.Security.Channel.{SecureChannel}

pub record Crypto : Type 1 where
  pub Spake : Type 0
  -- `start_a` and `start_b`: the randomness, the password and the two identities
  pub start_a : ℕ → List ℕ → List ℕ → List ℕ → Spake × List ℕ
  pub start_b : ℕ → List ℕ → List ℕ → List ℕ → Spake × List ℕ
  -- the shared key from the peer's message
  pub spake_finish : Spake → List ℕ → Option (List ℕ)
  pub sha256 : List ℕ → List ℕ
  -- 128 bytes from a salt, a key and an info string
  pub hkdf : List ℕ → List ℕ → List ℕ → List ℕ
  pub hmac : List ℕ → List ℕ → List ℕ
  pub utf8 : Text → List ℕ

pub data Role : Type 0 where
  as_viewer as_host : Role

-- `(n as u32).to_be_bytes()`
unfoldable pub be_bytes : ℕ → List ℕ
be_bytes n = n / 2 ^ 24 % 256 ∷ n / 2 ^ 16 % 256 ∷ n / 2 ^ 8 % 256 ∷ n % 256 ∷ []

pub record Keys : Type 0 where
  pub role : Role
  pub v2h : List ℕ
  pub h2v : List ℕ
  pub confirm_v : List ℕ
  pub confirm_h : List ℕ
  pub transcript : List ℕ

-- The `i`-th 32 bytes.
unfoldable pub slice : ℕ → List ℕ → List ℕ
slice i okm = take 32 (drop (i * 32) okm)

unfoldable pub into_channel : Keys → SecureChannel
unfolding Channel.new
into_channel k = elim k.role [
  | as_viewer ↦ Channel.new k.v2h k.h2v
  | as_host ↦ Channel.new k.h2v k.v2h
]

module _ (c : Crypto) where
  pub record PakeState : Type 0 where
    pub role : Role
    pub spake : c.Spake
    pub my_msg : List ℕ
    pub session : List ℕ

  unfoldable pub start_spake : Role → ℕ → List ℕ → List ℕ → List ℕ → c.Spake × List ℕ
  start_spake as_viewer coins pw id_v id_h = c.start_a coins pw id_v id_h
  start_spake as_host coins pw id_v id_h = c.start_b coins pw id_v id_h

  unfoldable pub start : Role → ℕ → List ℕ → List ℕ → Text → Text → PakeState
  unfolding start_spake
  start role coins password session viewer_id host_id =
      let id_v = session ++ (codes "|viewer|" ++ c.utf8 viewer_id) in
      let id_h = session ++ (codes "|host|" ++ c.utf8 host_id) in
      let (spake, my_msg) = start_spake role coins password id_v id_h in
      record { role = role; spake = spake; my_msg = my_msg; session = session }

  unfoldable pub transcript_of : List ℕ → List ℕ → List ℕ → List ℕ
  unfolding be_bytes
  transcript_of session viewer_msg host_msg = c.sha256 (
      codes "remotex-transcript-v1"
      ++ (session
          ++ (be_bytes (length viewer_msg)
              ++ (viewer_msg ++ (be_bytes (length host_msg) ++ host_msg)))))

  unfoldable pub keys_of : Role → List ℕ → List ℕ → Keys
  unfolding slice
  keys_of role transcript key =
      let okm = c.hkdf transcript key (codes "remotex-session-keys-v1") in
      record {
        role = role;
        v2h = slice 0 okm;
        h2v = slice 1 okm;
        confirm_v = slice 2 okm;
        confirm_h = slice 3 okm;
        transcript = transcript;
      }

  unfoldable pub own_transcript : PakeState → List ℕ → List ℕ
  unfolding transcript_of
  own_transcript s peer_msg = elim s.role [
    | as_viewer ↦ transcript_of s.session s.my_msg peer_msg
    | as_host ↦ transcript_of s.session peer_msg s.my_msg
  ]

  unfoldable pub finish : PakeState → List ℕ → Option Keys
  unfolding own_transcript keys_of
  finish s peer_msg = elim (c.spake_finish s.spake peer_msg) [
    | none ↦ none
    | some key ↦ some (keys_of s.role (own_transcript s peer_msg) key)
  ]

  unfoldable pub mac : Keys → List ℕ → List ℕ → List ℕ
  mac k key label = c.hmac key (label ++ k.transcript)

  unfoldable pub my_confirm : Keys → List ℕ
  unfolding mac
  my_confirm k = elim k.role [
    | as_viewer ↦ mac k k.confirm_v (codes "viewer-confirm")
    | as_host ↦ mac k k.confirm_h (codes "host-confirm")
  ]

  unfoldable pub verify_peer_confirm : Keys → List ℕ → Bool
  unfolding mac
  verify_peer_confirm k m =
      (elim k.role [
        | as_viewer ↦ mac k k.confirm_h (codes "host-confirm")
        | as_host ↦ mac k k.confirm_v (codes "viewer-confirm")
      ])
      == m
