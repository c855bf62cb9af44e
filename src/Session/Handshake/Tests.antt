-- ===== src/Session/Handshake/Tests.antt =====
-- A handshake with a stand-in for the cryptography: the key is the password.
use remote_x.Prelude.{ℕ, ◌≡◌, refl, true, false, List, [], ◌∷◌, ◌++◌, some}
use remote_x.Prelude.Result.{ok}
use remote_x.Common.Text.{Text, codes, byte_len, text_beq}
use remote_x.Common.Peer.{all}
use remote_x.Files.Names.{is_control}
use remote_x.Security.Channel.{SecureChannel}
use remote_x.Security.Pake.{Crypto}
use remote_x.Session.Handshake.{
  AuthKind, temporary, hello, hello_reply, confirm, PasswordLookup, available, ViewerParams,
  Authenticated, viewer_hello, viewer_handshake, host_handshake, bad_viewer,
}
use remote_x.Session.Handshake.Accept.{IsJudged, host_handshake-IsJudged}
use remote_x.Session.Handshake.Agree.{SpakeLaws, host_of, AreCrossed, handshake_agrees}

abbrev plain : Crypto
plain = record {
  Spake = List ℕ;
  start_a = λ coins pw v h. (pw, coins ∷ []);
  start_b = λ coins pw v h. (pw, coins ∷ []);
  spake_finish = λ s msg. some s;
  sha256 = λ bytes. bytes;
  hkdf = λ salt key info. salt ++ key;
  hmac = λ key msg. key ++ msg;
  utf8 = λ t. t;
}

laws : SpakeLaws plain
laws = record { agree = λ coins coins' pw v h. (pw, (refl, refl)) }

abbrev viewer : ViewerParams
viewer = record {
  session = 1 ∷ [];
  viewer_id = codes "1";
  viewer_name = codes "v";
  host_id = codes "2";
  password = codes "K7";
  auth = temporary;
  requested = all;
}

abbrev known : Text → AuthKind → PasswordLookup
known id auth = available (codes "K7")

fine_name : bad_viewer (host_of viewer) viewer.viewer_id viewer.viewer_name ≡ false
unfolding bad_viewer byte_len is_control text_beq
fine_name = refl

handshake_agrees_example :
    (reply code : List ℕ) × (code' : List ℕ) × (v : SecureChannel) × (a : Authenticated)
    × ((viewer_handshake plain 5 true true viewer (some (hello_reply reply)) (some (confirm code'))
          ≡ (viewer_hello plain 5 viewer ∷ confirm code ∷ [], ok v))
        × (host_handshake plain 6 true true
              (host_of viewer)
              known
              (some (viewer_hello plain 5 viewer))
              (some (confirm code))
            ≡ (hello_reply reply ∷ confirm code' ∷ [], ok a))
        × AreCrossed plain v a.channel)
handshake_agrees_example = handshake_agrees plain laws 5 6 viewer known refl fine_name

host_handshake-IsJudged_example :
    IsJudged plain 6 true true
      (host_of viewer)
      known
      2
      (codes "1")
      (codes "v")
      temporary
      (5 ∷ [])
      all
      (some (confirm []))
      (host_handshake plain 6 true true
        (host_of viewer)
        known
        (some (hello 2 (codes "1") (codes "v") temporary (5 ∷ []) all))
        (some (confirm [])))
host_handshake-IsJudged_example =
    host_handshake-IsJudged plain 6 true true (host_of viewer) known 2 (codes "1") (codes "v")
      temporary (5 ∷ []) all (some (confirm []))
