-- ===== src/Common/Ids.antt =====
-- crates/common/src/ids.rs: device and session identifiers.
-- A `SessionId` is the number that its sixteen bytes spell.
pub mod Canonical
mod Tests
use remote_x.Prelude.{
  ℕ, ◌+◌, ◌-◌, ◌*◌, ◌/◌, ◌%◌, ◌^◌, Bool, true, false, ◌&&◌, ◌||◌, not, List, [], ◌∷◌, ◌++◌, map,
  Option, none, some, ltb, leb, length, take, drop, if◌then◌else◌, nat_beq,
}
use remote_x.Prelude.Lists
use remote_x.Common.Text.{Text, byte_len}

abbrev pub DeviceId : Type 0
DeviceId = Text

-- DeviceId::LEN
abbrev pub id_len : ℕ
id_len = 9

unfoldable pub is_separator : ℕ → Bool
is_separator c = nat_beq c b' ' || (nat_beq c b'-' || (nat_beq c b'.' || nat_beq c 0xa0))

abbrev pub is_digit : ℕ → Bool
is_digit c = leb b'0' c && leb c b'9'

-- Arabic-Indic and Extended Arabic-Indic digits become ASCII digits.
unfoldable pub normalize_digit : ℕ → ℕ
normalize_digit c =
    if leb 0x660 c && leb c 0x669
    then b'0' + (c - 0x660)
    else if leb 0x6f0 c && leb c 0x6f9
    then b'0' + (c - 0x6f0)
    else c

unfoldable pub normalize_digits : Text → Text
normalize_digits = map normalize_digit

abbrev pub starts_with_zero : Text → Bool
starts_with_zero [] = false
starts_with_zero (c ∷ s) = nat_beq c b'0'

unfoldable pub strip : Text → Text
strip = Lists.retain (λ c. not (is_separator c))

all_digits : Text → Bool
all_digits [] = true
all_digits (c ∷ s) = is_digit c && all_digits s

unfoldable pub checked : Text → Option DeviceId
unfolding all_digits
checked digits =
    if nat_beq (byte_len digits) id_len && (all_digits digits && not (starts_with_zero digits))
    then some digits
    else none

-- DeviceId::parse
unfoldable pub parse : Text → Option DeviceId
parse input = checked (normalize_digits (strip input))

abbrev digit : ℕ → ℕ → ℕ
digit n k = b'0' + n / 10 ^ k % 10

-- `format!("{n:09}")` of a `u32`.
unfoldable pub from_number : ℕ → DeviceId
from_number n =
    let nine =
      digit n 8
      ∷ digit n 7
      ∷ digit n 6
      ∷ digit n 5
      ∷ digit n 4
      ∷ digit n 3
      ∷ digit n 2
      ∷ digit n 1
      ∷ digit n 0
      ∷ [] in
    if ltb n (10 ^ 9) then nine else digit n 9 ∷ nine

-- `583 294 814`
unfoldable pub display : DeviceId → Text
display s = take 3 s ++ (b' ' ∷ (take 3 (drop 3 s) ++ (b' ' ∷ take 3 (drop 6 s))))

abbrev hex_digit : ℕ → ℕ
hex_digit d = if ltb d 10 then b'0' + d else b'a' + (d - 10)

-- SessionId::to_hex, over the sixteen bytes.
unfoldable pub to_hex : List ℕ → Text
to_hex [] = []
to_hex (b ∷ bs) = hex_digit (b / 16) ∷ hex_digit (b % 16) ∷ to_hex bs
