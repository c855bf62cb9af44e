-- ===== src/Files/Names/Tests.antt =====
-- The theorem about peers' names on a concrete name.
use remote_x.Prelude.{◌≡◌, refl, Bool, true, List, [], ◌∷◌, All}
use remote_x.Prelude.Result.{ok}
use remote_x.Common.Text.{Text, codes, byte_len, text_beq}
use remote_x.Map.{contains}
use remote_x.Files.Names.{
  is_control, is_forbidden, ends_with, stem, valid_component, split, all_valid, sanitize_relative,
}
use remote_x.Files.Names.Safe.{IsPlain, join, sanitize_relative-IsPlain}

abbrev normal : Text → Bool
normal c = true

accepted : sanitize_relative normal (codes "docs/a.txt") ≡ ok (codes "docs" ∷ codes "a.txt" ∷ [])
unfolding sanitize_relative split all_valid valid_component stem ends_with is_forbidden is_control
    contains byte_len text_beq
accepted = refl

sanitize_relative-IsPlain_example :
    (part : Text) × (rest : List Text) × (codes "docs" ∷ codes "a.txt" ∷ [] ≡ part ∷ rest)
    × (join part rest ≡ codes "docs/a.txt")
    × All IsPlain (codes "docs" ∷ codes "a.txt" ∷ [])
sanitize_relative-IsPlain_example =
    sanitize_relative-IsPlain normal (codes "docs/a.txt") (codes "docs" ∷ codes "a.txt" ∷ [])
      accepted
