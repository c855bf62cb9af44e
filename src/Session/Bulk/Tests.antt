-- ===== src/Session/Bulk/Tests.antt =====
-- The cap with thousandths for floating-point numbers.
use remote_x.Prelude.{◌≡◌, refl, [], ◌∷◌}
use remote_x.Float.{thousandths}
use remote_x.Session.Bulk.{new, floor_of, next_rate, part, update, run}

-- A quiet path raises the cap, and a queue of 120 milliseconds halves it.
rises : (run thousandths thousandths (20_000 ∷ []) (new thousandths thousandths)).rate ≡ 81_920
unfolding run update floor_of next_rate part new
rises = refl

falls :
    (run thousandths thousandths (20_000 ∷ 140_000 ∷ []) (new thousandths thousandths)).rate
    ≡ 40_960
unfolding run update floor_of next_rate part new
falls = refl
