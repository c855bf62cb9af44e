-- ===== src/Input/Clipboard/Tests.antt =====
-- A clipboard whose backend counts its changes.
use remote_x.Prelude.{ℕ, ◌+◌, ◌≡◌, refl, true, List, [], ◌∷◌, Option, none, some}
use remote_x.Prelude.Eq.{pair_eq, nat_eq}
use remote_x.Common.Text.{Text, byte_len, codes, text_beq, text_eq, utf8_width}
use remote_x.Common.Peer.{ClipboardPayload, clip_text}
use remote_x.Input.Clipboard.{
  Backend, ClipboardSync, Happening, changes, polls, receives, taken, sent, new, moves, step,
  poll_local, apply_remote, consider, size, digest,
}
use remote_x.Input.Clipboard.Echo.{IsFresh, moves-IsFresh}

abbrev Board : Type 0
Board = ℕ × Option ClipboardPayload

abbrev board : Backend Board
board = record {
  sequence = λ b. b.0;
  read = λ b. (b.1, b);
  write = λ p b. (true, (b.0 + 1, some p));
}

abbrev bytes : Text → List ℕ
bytes t = t

abbrev hash : List ℕ → Text
hash bs = bs

abbrev copies : Text → Happening Board
copies t = changes (λ b. (b.0 + 1, some (clip_text t)))

abbrev story : List (Happening Board)
story =
    receives (clip_text (codes "a"))
    ∷ polls
    ∷ copies (codes "b")
    ∷ polls
    ∷ copies (codes "a")
    ∷ polls
    ∷ []

abbrev start : ClipboardSync Board Text
start = new board hash bytes (0, none) 10

moves-IsFresh_example :
    IsFresh board hash bytes 10 start.last_sent (moves board hash bytes story start)
unfolding new
moves-IsFresh_example = moves-IsFresh board hash bytes 10 story start refl

-- The user copies again what the peer sent first; it is not sent, although the peer has the other
-- text by now.
lost :
    moves board hash bytes story start
    ≡ taken (clip_text (codes "a")) ∷ sent (clip_text (codes "b")) ∷ []
unfolding moves step poll_local apply_remote consider size digest new byte_len utf8_width text_beq
lost = refl
