-- ===== src/Session/Handshake/Accept.antt =====
-- crates/session/src/handshake.rs: what the host has checked when it accepts a viewer.
use remote_x.Prelude.{
  ℕ, ◌≡◌, refl, Bool, true, false, not, List, [], ◌∷◌, Option, none, some, nat_beq, if_both,
  option_both, arith,
}
use remote_x.Prelude.Result.{ok, err}
use remote_x.Common.Text.{Text}
use remote_x.Common.Peer.{Permissions}
use remote_x.Security.Pake.{Crypto, Keys, finish, verify_peer_confirm, into_channel}
use remote_x.Session.Handshake.{
  AuthKind, locked_out, unattended_disabled, Handshake, hello, hello_reply, confirm, abort,
  PasswordLookup, available, disabled, is_locked, HostParams, bad_password, refused, protocol_error,
  HostOutcome, host_state, host_decides, host_replies, host_handshake, bad_viewer, sending,
  protocol_version,
}

module _ (c : Crypto) (coins : ℕ) (sends_reply sends_confirm : Bool) (p : HostParams)
    (lookup : Text → AuthKind → PasswordLookup) (version : ℕ) (viewer_id viewer_name : Text)
    (auth : AuthKind) (pake : List ℕ) (requested : Permissions) (answer : Option Handshake) where
  -- The keys of this exchange, from the password that the lookup gave.
  unfoldable pub HasKeys : Text → Keys → Type 0
  HasKeys pw keys =
      (lookup viewer_id auth ≡ available pw)
      × (finish c (host_state c coins p pw viewer_id) pake ≡ some keys)

  -- An accepted viewer showed the code that only these keys give; a wrong password is reported only
  -- when a code was shown that these keys do not give.
  unfoldable pub IsJudged : HostOutcome → Type 0
  IsJudged (hs, err (bad_password id)) =
      (id ≡ viewer_id)
      × ((pw : Text) × (keys : Keys) × (code : List ℕ) × (HasKeys pw keys
            × (answer ≡ some (confirm code))
            × (verify_peer_confirm c keys code ≡ false)))
  IsJudged (hs, err failure) = Unit
  IsJudged (hs, ok a) =
      (version ≡ protocol_version)
      × (bad_viewer p viewer_id viewer_name ≡ false)
      × (a.viewer_id ≡ viewer_id)
      × (a.viewer_name ≡ viewer_name)
      × (a.auth ≡ auth)
      × (a.requested ≡ requested)
      × ((pw : Text) × (keys : Keys) × (code : List ℕ) × (HasKeys pw keys
            × (answer ≡ some (confirm code))
            × (verify_peer_confirm c keys code ≡ true)
            × (a.channel ≡ into_channel keys)))

  host_decides-IsJudged :
      (pw : Text) (keys : Keys) (code : List ℕ)
      → HasKeys pw keys
      → answer ≡ some (confirm code)
      → version ≡ protocol_version
      → bad_viewer p viewer_id viewer_name ≡ false
      → IsJudged (
          host_decides c sends_confirm keys viewer_id viewer_name auth requested
            (some (confirm code)))
  unfolding host_decides IsJudged
  host_decides-IsJudged pw keys code h e v b =
      if_both IsJudged (not (verify_peer_confirm c keys code))
        (λ x. (refl, (pw, keys, code, (h, e, ground (arith, x)))))
        (λ x.
          if_both IsJudged (not sends_confirm) (λ y. tt)
            (λ y.
              (v, b, refl, refl, refl, refl, (pw, keys, code, (h, e, ground (arith, x), refl)))))

  -- Sending a message before changes nothing of the judgement.
  sending-IsJudged : (h : Handshake) (o : HostOutcome) → IsJudged o → IsJudged (sending c h o)
  unfolding IsJudged
  sending-IsJudged h (hs, ok a) j = j
  sending-IsJudged h (hs, err (bad_password id)) j = j
  sending-IsJudged h (hs, err failure) j = tt

  answered-IsJudged :
      (pw : Text) (keys : Keys) (given : Option Handshake)
      → answer ≡ given
      → HasKeys pw keys
      → version ≡ protocol_version
      → bad_viewer p viewer_id viewer_name ≡ false
      → IsJudged (host_decides c sends_confirm keys viewer_id viewer_name auth requested given)
  unfolding host_decides IsJudged
  answered-IsJudged pw keys (some (confirm code)) e h v b =
      host_decides-IsJudged pw keys code h e v b
  answered-IsJudged pw keys none e h v b = tt
  answered-IsJudged pw keys (some h') e h v b = tt

  -- The host accepts only a viewer of its protocol version with the identity that the server
  -- vouched for and an acceptable name, who proved with the code of the exchange's keys to know the
  -- password that the lookup gave for it, and the channel has just these keys; and it reports a bad
  -- password only for a code that these keys do not give.
  pub host_handshake-IsJudged : IsJudged (
      host_handshake c coins sends_reply sends_confirm p lookup
        (some (hello version viewer_id viewer_name auth pake requested))
        answer)
  unfolding host_handshake host_replies IsJudged HasKeys
  host_handshake-IsJudged =
      if_both IsJudged (not (nat_beq version protocol_version)) (λ x. tt)
        (λ x.
          if_both IsJudged (bad_viewer p viewer_id viewer_name) (λ y. tt)
            (λ y. judged (lookup viewer_id auth) refl (ground (arith, x)) y))
    where
      judged :
          (l : PasswordLookup)
          → lookup viewer_id auth ≡ l
          → version ≡ protocol_version
          → bad_viewer p viewer_id viewer_name ≡ false
          → IsJudged (elim l as (λ x. HostOutcome) [
            | available pw ↦
                host_replies c coins sends_reply sends_confirm p pw viewer_id viewer_name auth pake
                  requested answer
            | disabled ↦ (abort unattended_disabled ∷ [], err (refused unattended_disabled))
            | is_locked ↦ (abort locked_out ∷ [], err (refused locked_out))
          ])
      judged disabled e v b = tt
      judged is_locked e v b = tt
      judged (available pw) e v b =
          if_both IsJudged (not sends_reply) (λ x. tt)
            (λ x.
              sending-IsJudged (hello_reply (host_state c coins p pw viewer_id).my_msg)
                (elim (finish c (host_state c coins p pw viewer_id) pake) as (λ y. HostOutcome) [
                  | none ↦ ([], err protocol_error)
                  | some keys ↦
                      host_decides c sends_confirm keys viewer_id viewer_name auth requested answer
                ])
                (option_both IsJudged (finish c (host_state c coins p pw viewer_id) pake) (λ y. tt)
                  (λ keys y. answered-IsJudged pw keys answer refl (e, y) v b)))
