-- ===== src/Session/Handshake/Agree.antt =====
-- crates/session/src/handshake.rs: two sides with the same password.
use remote_x.Prelude.{
  ℕ, ◌≡◌, refl, ◌∙◌, ap, true, false, not, List, [], ◌∷◌, ◌++◌, Option, none, some, if_both,
  if◌then◌else◌, arith,
}
use remote_x.Prelude.Eq.{beq_refl}
use remote_x.Prelude.Result.{ok, err}
use remote_x.Common.Text.{Text, codes, text_eq}
use remote_x.Security.Channel
use remote_x.Security.Channel.{SecureChannel}
use remote_x.Security.Pake.{
  Crypto, Keys, as_viewer, as_host, start, start_spake, finish, keys_of, own_transcript,
  transcript_of, mac, my_confirm, verify_peer_confirm, into_channel,
}
use remote_x.Session.Handshake.{
  AuthKind, hello_reply, confirm, PasswordLookup, available, ViewerParams, HostParams,
  ViewerOutcome, protocol, wrong_password, protocol_error, abort, auth_failed, bad_password,
  disabled, is_locked, refused, unattended_disabled, locked_out, Authenticated, HostOutcome,
  viewer_state, viewer_hello, viewer_answer, viewer_confirms, viewer_after_hello, viewer_handshake,
  host_state, host_decides, host_replies, host_handshake, bad_viewer, sending,
}

-- SPAKE2: two sides that start with the same password and identities come to the same key.
pub record SpakeLaws (c : Crypto) : Type 0 where
  pub agree :
      (coins coins' : ℕ) (pw id_v id_h : List ℕ)
      → (key : List ℕ) × ((c.spake_finish
              (c.start_a coins pw id_v id_h).0
              (c.start_b coins' pw id_v id_h).1
            ≡ some key)
          × (c.spake_finish (c.start_b coins' pw id_v id_h).0 (c.start_a coins pw id_v id_h).1
              ≡ some key))

-- The host that the viewer means to reach.
abbrev pub host_of : ViewerParams → HostParams
host_of p = record { session = p.session; host_id = p.host_id; expected_viewer_id = p.viewer_id }

module _ (c : Crypto) where
  -- Each side's code is the one that the other side with the same key expects.
  viewer_code :
      (t key : List ℕ)
      → verify_peer_confirm c (keys_of c as_host t key) (my_confirm c (keys_of c as_viewer t key))
        ≡ true
  unfolding verify_peer_confirm my_confirm keys_of mac
  viewer_code t key =
      beq_refl (c.hmac (keys_of c as_viewer t key).confirm_v (codes "viewer-confirm" ++ t))

  host_code :
      (t key : List ℕ)
      → verify_peer_confirm c (keys_of c as_viewer t key) (my_confirm c (keys_of c as_host t key))
        ≡ true
  unfolding verify_peer_confirm my_confirm keys_of mac
  host_code t key =
      beq_refl (c.hmac (keys_of c as_viewer t key).confirm_h (codes "host-confirm" ++ t))

  -- What one side seals with, the other opens with.
  unfoldable pub AreCrossed : SecureChannel → SecureChannel → Type 0
  AreCrossed v h =
      (v.sealer.key ≡ h.opener.key)
      × (h.sealer.key ≡ v.opener.key)
      × (v.sealer.counter ≡ h.opener.counter)
      × (h.sealer.counter ≡ v.opener.counter)

  channels_crossed :
      (t key : List ℕ)
      → AreCrossed
          (into_channel (keys_of c as_viewer t key))
          (into_channel (keys_of c as_host t key))
  unfolding AreCrossed into_channel keys_of Channel.new
  channels_crossed t key = (refl, refl, refl, refl)

  module _ (laws : SpakeLaws c) (coins coins' : ℕ) (p : ViewerParams) where
    abbrev pw : List ℕ
    pw = c.utf8 p.password

    abbrev id_v : List ℕ
    id_v = p.session ++ (codes "|viewer|" ++ c.utf8 p.viewer_id)

    abbrev id_h : List ℕ
    id_h = p.session ++ (codes "|host|" ++ c.utf8 p.host_id)

    abbrev viewer_msg : List ℕ
    viewer_msg = (c.start_a coins pw id_v id_h).1

    abbrev host_msg : List ℕ
    host_msg = (c.start_b coins' pw id_v id_h).1

    abbrev key : List ℕ
    key = (laws.agree coins coins' pw id_v id_h).0

    abbrev viewer_keys : Keys
    viewer_keys = keys_of c as_viewer (transcript_of c p.session viewer_msg host_msg) key

    abbrev host_keys : Keys
    host_keys = keys_of c as_host (transcript_of c p.session viewer_msg host_msg) key

    viewer_finishes : finish c (viewer_state c coins p) host_msg ≡ some viewer_keys
    unfolding finish viewer_state start start_spake own_transcript
    viewer_finishes =
        ap
          (λ o. elim o as (λ x. Option Keys) [
            | none ↦ none
            | some k ↦ some (keys_of c as_viewer (transcript_of c p.session viewer_msg host_msg) k)
          ])
          (laws.agree coins coins' pw id_v id_h).1.0

    host_finishes :
        finish c (host_state c coins' (host_of p) p.password p.viewer_id) viewer_msg
        ≡ some host_keys
    unfolding finish host_state start start_spake own_transcript
    host_finishes =
        ap
          (λ o. elim o as (λ x. Option Keys) [
            | none ↦ none
            | some k ↦ some (keys_of c as_host (transcript_of c p.session viewer_msg host_msg) k)
          ])
          (laws.agree coins coins' pw id_v id_h).1.1

    viewer_succeeds :
        viewer_handshake c coins true true p
          (some (hello_reply host_msg))
          (some (confirm (my_confirm c host_keys)))
        ≡ (
          viewer_hello c coins p ∷ confirm (my_confirm c viewer_keys) ∷ [],
          ok (into_channel viewer_keys),
        )
    unfolding viewer_handshake viewer_after_hello viewer_confirms viewer_answer
    viewer_succeeds =
        ap
          (λ o. sending c (viewer_hello c coins p) (elim o as (λ x. ViewerOutcome) [
            | none ↦ ([], err protocol)
            | some keys ↦ (
              confirm (my_confirm c keys) ∷ [],
              viewer_answer c keys (some (confirm (my_confirm c host_keys))),
            )
          ]))
          viewer_finishes
        ∙ ap
            (λ b. (
              viewer_hello c coins p ∷ confirm (my_confirm c viewer_keys) ∷ [],
              if b then ok (into_channel viewer_keys) else err wrong_password,
            ))
            (host_code (transcript_of c p.session viewer_msg host_msg) key)

    -- The host's side of the agreed session.
    abbrev authenticated : Authenticated
    authenticated = record {
      channel = into_channel host_keys;
      viewer_id = p.viewer_id;
      viewer_name = p.viewer_name;
      auth = p.auth;
      requested = p.requested;
    }

    abbrev told : HostOutcome → HostOutcome
    told o = sending c (hello_reply host_msg) o

    host_replied :
        host_replies c coins' true true
          (host_of p)
          p.password
          p.viewer_id
          p.viewer_name
          p.auth
          viewer_msg
          p.requested
          (some (confirm (my_confirm c viewer_keys)))
        ≡ (hello_reply host_msg ∷ confirm (my_confirm c host_keys) ∷ [], ok authenticated)
    unfolding host_replies host_decides host_state start start_spake
    host_replied =
        ap
          (λ o. told (elim o as (λ x. HostOutcome) [
            | none ↦ ([], err protocol_error)
            | some keys ↦
                host_decides c true keys p.viewer_id p.viewer_name p.auth p.requested
                  (some (confirm (my_confirm c viewer_keys)))
          ]))
          host_finishes
        ∙ ap
            (λ b. told (
              if not b
              then (abort auth_failed ∷ [], err (bad_password p.viewer_id))
              else (confirm (my_confirm c host_keys) ∷ [], ok authenticated)))
            (viewer_code (transcript_of c p.session viewer_msg host_msg) key)

    -- Where the host's lookup gives the viewer's password and the viewer's name is acceptable, both
    -- sides succeed when each receives what the other sends, and their channels fit together.
    pub handshake_agrees :
        (lookup : Text → AuthKind → PasswordLookup)
        → lookup p.viewer_id p.auth ≡ available p.password
        → bad_viewer (host_of p) p.viewer_id p.viewer_name ≡ false
        → (reply code : List ℕ) × (code' : List ℕ) × (v : SecureChannel) × (a : Authenticated)
          × ((viewer_handshake c coins true true p (some (hello_reply reply)) (some (confirm code'))
                ≡ (viewer_hello c coins p ∷ confirm code ∷ [], ok v))
              × (host_handshake c coins' true true
                    (host_of p)
                    lookup
                    (some (viewer_hello c coins p))
                    (some (confirm code))
                  ≡ (hello_reply reply ∷ confirm code' ∷ [], ok a))
              × AreCrossed v a.channel)
    unfolding host_handshake viewer_hello viewer_state start start_spake
    handshake_agrees lookup known fine = (
      host_msg,
      my_confirm c viewer_keys,
      my_confirm c host_keys,
      into_channel viewer_keys,
      authenticated,
      (
        viewer_succeeds,
        if_both
            (λ (o : HostOutcome).
              o ≡ (hello_reply host_msg ∷ confirm (my_confirm c host_keys) ∷ [], ok authenticated))
            (bad_viewer (host_of p) p.viewer_id p.viewer_name) (λ x. ground (arith, x, fine))
            (λ x.
              ap
                (λ l. elim l as (λ y. HostOutcome) [
                  | available w ↦
                      host_replies c coins' true true (host_of p) w p.viewer_id p.viewer_name p.auth
                        viewer_msg p.requested (some (confirm (my_confirm c viewer_keys)))
                  | disabled ↦ (abort unattended_disabled ∷ [], err (refused unattended_disabled))
                  | is_locked ↦ (abort locked_out ∷ [], err (refused locked_out))
                ])
                known
              ∙ host_replied),
        channels_crossed (transcript_of c p.session viewer_msg host_msg) key,
      ),
    )
