-- ===== src/Common/Ids/Tests.antt =====
-- The theorems about device ids on a concrete id.
use remote_x.Prelude.{◌≡◌, refl, some}
use remote_x.Common.Text.{Text, codes, byte_len}
use remote_x.Common.Ids.{
  is_separator, normalize_digit, normalize_digits, strip, checked, parse, display,
}
use remote_x.Common.Ids.Canonical.{IsCanonical, parse-display}

abbrev id : Text
id = codes "123456789"

id-IsCanonical : IsCanonical id
id-IsCanonical = record {
  nine = refl;
  digits = (refl, (refl, (refl, (refl, (refl, (refl, (refl, (refl, (refl, tt)))))))));
  leading = refl;
}

parsed : parse (codes "123-456 789") ≡ some id
unfolding parse checked strip normalize_digits normalize_digit is_separator byte_len
parsed = refl

parse-display_example : (parse id ≡ some id) × (parse (display id) ≡ some id)
parse-display_example = parse-display id id-IsCanonical
