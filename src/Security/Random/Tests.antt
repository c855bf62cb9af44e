-- ===== src/Security/Random/Tests.antt =====
-- Passwords and ids from some bytes.
use remote_x.Prelude.{ℕ, ◌≡◌, refl, List, [], ◌∷◌, some, arith}
use remote_x.Common.Text.{codes}
use remote_x.Security.Random.{limit, letter, take_letters, fill_password, generate_temp_password}
use remote_x.Security.Random.Ends.{IsPassword, generate_temp_password-ends}

abbrev batches : List (List ℕ)
batches = (255 ∷ 8 ∷ []) ∷ (7 ∷ []) ∷ (250 ∷ 5 ∷ []) ∷ (30 ∷ []) ∷ (31 ∷ []) ∷ (0 ∷ []) ∷ []

password : generate_temp_password batches ≡ some (codes "JHF9AA")
unfolding generate_temp_password fill_password take_letters limit letter
password = refl

generate_temp_password-ends_example : IsPassword (generate_temp_password batches)
unfolding limit
generate_temp_password-ends_example =
    generate_temp_password-ends batches (refl, (refl, (refl, (refl, (refl, (refl, tt))))))
      (omega arith)
