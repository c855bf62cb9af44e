-- ===== src/Session/Handshake.antt =====
-- crates/session/src/handshake.rs: how the two sides of a session authenticate each other. What a
-- side receives is an argument, `none` for a frame that does not come in time or cannot be decoded;
-- so is whether a message could be sent. An abort is listed as sent whether or not it goes out.
pub mod Accept
pub mod Agree
mod Tests
use remote_x.Prelude.{
  ℕ, Bool, true, false, ◌||◌, not, List, [], ◌∷◌, Option, none, some, ltb, nat_beq, any,
  if◌then◌else◌,
}
use remote_x.Prelude.Eq.{◌==◌}
use remote_x.Prelude.Result.{Result, ok, err}
use remote_x.Common.Text.{Text, byte_len, text_eq}
use remote_x.Common.Peer.{Permissions}
use remote_x.Files.Names.{is_control}
use remote_x.Security.Channel.{SecureChannel}
use remote_x.Security.Pake.{
  Crypto, Role, as_viewer, as_host, PakeState, Keys, start, finish, my_confirm, verify_peer_confirm,
  into_channel,
}

pub data AuthKind : Type 0 where
  temporary permanent : AuthKind

pub data AbortReason : Type 0 where
  busy unsupported not_accepting locked_out auth_failed unattended_disabled : AbortReason

pub data Handshake : Type 0 where
  hello : ℕ → Text → Text → AuthKind → List ℕ → Permissions → Handshake
  hello_reply : List ℕ → Handshake
  confirm : List ℕ → Handshake
  abort : AbortReason → Handshake

abbrev pub protocol_version : ℕ
protocol_version = 2

abbrev pub max_name_len : ℕ
max_name_len = 64

pub data ViewerFailure : Type 0 where
  aborted : AbortReason → ViewerFailure
  wrong_password protocol : ViewerFailure

pub record ViewerParams : Type 0 where
  pub session : List ℕ
  pub viewer_id : Text
  pub viewer_name : Text
  pub host_id : Text
  pub password : Text
  pub auth : AuthKind
  pub requested : Permissions

pub data PasswordLookup : Type 0 where
  available : Text → PasswordLookup
  disabled is_locked : PasswordLookup

pub record HostParams : Type 0 where
  pub session : List ℕ
  pub host_id : Text
  pub expected_viewer_id : Text

pub record Authenticated : Type 0 where
  pub channel : SecureChannel
  pub viewer_id : Text
  pub viewer_name : Text
  pub auth : AuthKind
  pub requested : Permissions

pub data HostFailure : Type 0 where
  bad_password : Text → HostFailure
  refused : AbortReason → HostFailure
  protocol_error : HostFailure

abbrev pub HostOutcome : Type 0
HostOutcome = List Handshake × Result Authenticated HostFailure

abbrev pub ViewerOutcome : Type 0
ViewerOutcome = List Handshake × Result SecureChannel ViewerFailure

unfoldable pub bad_viewer : HostParams → Text → Text → Bool
unfolding byte_len is_control
bad_viewer p viewer_id viewer_name =
    not (viewer_id == p.expected_viewer_id)
    || viewer_name == []
    || ltb max_name_len (byte_len viewer_name)
    || any is_control viewer_name

module _ (c : Crypto) where
  unfoldable pub viewer_state : ℕ → ViewerParams → PakeState c
  viewer_state coins p = start c as_viewer coins (c.utf8 p.password) p.session p.viewer_id p.host_id

  unfoldable pub viewer_hello : ℕ → ViewerParams → Handshake
  unfolding viewer_state
  viewer_hello coins p =
      hello protocol_version p.viewer_id p.viewer_name p.auth (viewer_state coins p).my_msg
        p.requested

  -- The answer to the viewer's confirmation.
  unfoldable pub viewer_answer : Keys → Option Handshake → Result SecureChannel ViewerFailure
  viewer_answer keys none = err protocol
  viewer_answer keys (some (confirm mac)) =
      if verify_peer_confirm c keys mac then ok (into_channel keys) else err wrong_password
  viewer_answer keys (some (abort auth_failed)) = err wrong_password
  viewer_answer keys (some (abort reason)) = err (aborted reason)
  viewer_answer keys (some h) = err protocol

  -- From the host's message on, with whether the confirmation could be sent.
  unfoldable pub viewer_confirms : Bool → PakeState c → List ℕ → Option Handshake → ViewerOutcome
  unfolding viewer_answer
  viewer_confirms sends state peer_msg answer = elim (finish c state peer_msg) [
    | none ↦ ([], err protocol)
    | some keys ↦
        if not sends
        then ([], err protocol)
        else (confirm (my_confirm c keys) ∷ [], viewer_answer keys answer)
  ]

  unfoldable pub viewer_after_hello :
      Bool → PakeState c → Option Handshake → Option Handshake → ViewerOutcome
  unfolding viewer_confirms
  viewer_after_hello sends state (some (hello_reply pake)) answer =
      viewer_confirms sends state pake answer
  viewer_after_hello sends state (some (abort reason)) answer = ([], err (aborted reason))
  viewer_after_hello sends state reply answer = ([], err protocol)

  -- What is sent before and in a later part of a side.
  abbrev pub sending : {A : Type 0} → Handshake → List Handshake × A → List Handshake × A
  sending h (hs, r) = (h ∷ hs, r)

  unfoldable pub viewer_handshake :
      ℕ → Bool → Bool → ViewerParams → Option Handshake → Option Handshake → ViewerOutcome
  unfolding viewer_state viewer_hello viewer_after_hello
  viewer_handshake coins sends_hello sends_confirm p reply answer =
      if not sends_hello
      then ([], err protocol)
      else sending (viewer_hello coins p)
          (viewer_after_hello sends_confirm (viewer_state coins p) reply answer)

  unfoldable pub host_state : ℕ → HostParams → Text → Text → PakeState c
  host_state coins p password viewer_id =
      start c as_host coins (c.utf8 password) p.session viewer_id p.host_id

  -- After the reply: the viewer's confirmation decides.
  unfoldable pub host_decides :
      Bool → Keys → Text → Text → AuthKind → Permissions → Option Handshake → HostOutcome
  host_decides sends keys viewer_id viewer_name auth requested (some (confirm mac)) =
      if not (verify_peer_confirm c keys mac)
      then (abort auth_failed ∷ [], err (bad_password viewer_id))
      else if not sends
      then ([], err protocol_error)
      else (
        confirm (my_confirm c keys) ∷ [],
        ok (record {
          channel = into_channel keys;
          viewer_id = viewer_id;
          viewer_name = viewer_name;
          auth = auth;
          requested = requested;
        }),
      )
  host_decides sends keys viewer_id viewer_name auth requested h = ([], err protocol_error)

  unfoldable pub host_replies :
      ℕ
      → Bool
      → Bool
      → HostParams
      → Text
      → Text
      → Text
      → AuthKind
      → List ℕ
      → Permissions
      → Option Handshake
      → HostOutcome
  unfolding host_state host_decides
  host_replies coins sends_reply sends_confirm p password viewer_id viewer_name auth pake requested
        answer =
      let state = host_state coins p password viewer_id in
      if not sends_reply
      then ([], err protocol_error)
      else sending (hello_reply state.my_msg) (elim (finish c state pake) as (λ x. HostOutcome) [
        | none ↦ ([], err protocol_error)
        | some keys ↦ host_decides sends_confirm keys viewer_id viewer_name auth requested answer
      ])

  unfoldable pub host_handshake :
      ℕ
      → Bool
      → Bool
      → HostParams
      → (Text → AuthKind → PasswordLookup)
      → Option Handshake
      → Option Handshake
      → HostOutcome
  unfolding bad_viewer host_replies
  host_handshake coins sends_reply sends_confirm p lookup
        (some (hello version viewer_id viewer_name auth pake requested)) answer =
      if not (nat_beq version protocol_version)
      then (abort unsupported ∷ [], err (refused unsupported))
      else if bad_viewer p viewer_id viewer_name
      then ([], err protocol_error)
      else (elim (lookup viewer_id auth) as (λ x. HostOutcome) [
        | available pw ↦
            host_replies coins sends_reply sends_confirm p pw viewer_id viewer_name auth pake
              requested answer
        | disabled ↦ (abort unattended_disabled ∷ [], err (refused unattended_disabled))
        | is_locked ↦ (abort locked_out ∷ [], err (refused locked_out))
      ])
  host_handshake coins sends_reply sends_confirm p lookup h answer = ([], err protocol_error)
