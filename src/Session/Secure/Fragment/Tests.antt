-- ===== src/Session/Secure/Fragment/Tests.antt =====
-- The theorems about units at concrete messages.
use remote_x.Prelude.{ℕ, ◌+◌, ◌*◌, ◌≡◌, refl, List, [], ◌∷◌, some, arith}
use remote_x.Prelude.Result.{ok}
use remote_x.Session.Secure.Fragment.{
  lane_video, lane_ctl, units, Partial, no_partial, update, lane_receive, deliver, receive,
  receive_all, first, mid, last, whole,
}
use remote_x.Session.Secure.Fragment.Roundtrip.{receive_all-units, Delivers}

receive_all-units_example :
    (us : List (List ℕ)) × (units 2 (record { lane = lane_video; bytes = 7 ∷ 8 ∷ []; off = 0 })
      ≡ some us)
    × Delivers no_partial lane_video (7 ∷ 8 ∷ []) us
receive_all-units_example =
    receive_all-units 1 lane_video (7 ∷ 8 ∷ []) no_partial (omega arith) (omega arith) (omega arith)
      refl

-- A frame in three units with a control message between them.
abbrev mixed : List (List ℕ)
mixed =
    ((lane_video * 4 + first) ∷ 1 ∷ 2 ∷ [])
    ∷ ((lane_ctl * 4 + whole) ∷ 9 ∷ [])
    ∷ ((lane_video * 4 + mid) ∷ 3 ∷ [])
    ∷ ((lane_video * 4 + last) ∷ 4 ∷ [])
    ∷ []

abbrev after : Partial
after = update (update (update (update no_partial 1 (1 ∷ 2 ∷ [])) 0 []) 1 (1 ∷ 2 ∷ 3 ∷ [])) 1 []

received : receive_all no_partial mixed ≡ ok ((0, 9 ∷ []) ∷ (1, 1 ∷ 2 ∷ 3 ∷ 4 ∷ []) ∷ [], after)
unfolding receive_all receive deliver lane_receive update
received = refl
