-- ===== src/Common/Peer/Tests.antt =====
-- The theorem about permissions on two concrete sets.
use remote_x.Prelude.{ℕ, ◌≡◌, refl, true, false, [], ◌∷◌, none, some}
use remote_x.Common.Peer

abbrev requested : Peer.Permissions
requested = record Peer.all_elevated { mouse = false }

abbrev arrow : Peer.CursorShape
arrow = record { id = 1; width = 1; height = 1; hot_x = 0; hot_y = 0; rgba = 0 ∷ 0 ∷ 0 ∷ 255 ∷ [] }

abbrev moved : Peer.Msg ℕ
moved = Peer.cursor (record { x = 3; y = 4; visible = true; shape = some arrow })

moved_valid : Peer.validate moved ≡ none
unfolding Peer.validate Peer.validate_cursor
moved_valid = refl
