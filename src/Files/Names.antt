-- ===== src/Files/Names.antt =====
-- crates/files/src/lib.rs: the peer's relative path. `Component::Normal`, the operating system's
-- reading of a component, is the parameter `is_normal`.
pub mod Safe
mod Tests
use remote_x.Prelude.{
  ℕ, ◌+◌, ◌-◌, Bool, true, false, not, ◌&&◌, ◌||◌, List, [], ◌∷◌, ◌++◌, Option, none, some, any,
  ltb, leb, nat_beq, if◌then◌else◌, map,
}
use remote_x.Prelude.Eq.{◌==◌, nat_eq}
use remote_x.Prelude.Result.{Result, ok, err}
use remote_x.Map.{contains}
use remote_x.Common.Text.{Text, codes, byte_len, text_beq, text_eq}

pub data FileError : Type 0 where
  bad_name too_large out_of_order io : FileError

abbrev pub reserved : List Text
reserved =
    codes "CON"
    ∷ codes "PRN"
    ∷ codes "AUX"
    ∷ codes "NUL"
    ∷ codes "COM1"
    ∷ codes "COM2"
    ∷ codes "COM3"
    ∷ codes "COM4"
    ∷ codes "COM5"
    ∷ codes "COM6"
    ∷ codes "COM7"
    ∷ codes "COM8"
    ∷ codes "COM9"
    ∷ codes "LPT1"
    ∷ codes "LPT2"
    ∷ codes "LPT3"
    ∷ codes "LPT4"
    ∷ codes "LPT5"
    ∷ codes "LPT6"
    ∷ codes "LPT7"
    ∷ codes "LPT8"
    ∷ codes "LPT9"
    ∷ []

abbrev pub slash : ℕ
slash = b'/'

-- `char::is_control`
unfoldable pub is_control : ℕ → Bool
is_control c = ltb c 32 || (leb 127 c && leb c 159)

unfoldable pub is_forbidden : ℕ → Bool
unfolding is_control
is_forbidden c =
    if is_control c
    then true
    else contains c (b'<' ∷ b'>' ∷ b':' ∷ b'"' ∷ b'|' ∷ b'?' ∷ b'*' ∷ b'\\' ∷ slash ∷ [])

-- `ends_with` a character
unfoldable pub ends_with : ℕ → Text → Bool
ends_with x [] = false
ends_with x (c ∷ []) = nat_beq c x
ends_with x (c ∷ d ∷ s) = ends_with x (d ∷ s)

-- `split('.').next()`
unfoldable pub stem : Text → Text
stem [] = []
stem (c ∷ s) = let rest = stem s in if nat_beq c b'.' then [] else c ∷ rest

abbrev pub upper : ℕ → ℕ
upper c = if leb b'a' c && leb c b'z' then c - 32 else c

unfoldable pub valid_component : Text → Bool
unfolding ends_with is_forbidden stem
valid_component c =
    if (if text_beq c []
      then true
      else if ltb 200 (byte_len c)
      then true
      else if text_beq c (codes ".")
      then true
      else text_beq c (codes ".."))
    then false
    else if (if ends_with b'.' c then true else ends_with b' ' c)
    then false
    else if any is_forbidden c
    then false
    else not (contains (map upper (stem c)) reserved)

-- `split('/')`: the parts of a text, of which there is at least one.
unfoldable pub split : Text → Text × List Text
split [] = ([], [])
split (c ∷ s) =
    let (part, parts) = split s in if nat_beq c slash then ([], part ∷ parts) else (c ∷ part, parts)

abbrev pub starts_with : ℕ → Text → Bool
starts_with x [] = false
starts_with x (c ∷ s) = nat_beq c x

unfoldable pub all_valid : List Text → Bool
all_valid [] = true
all_valid (p ∷ parts) = if valid_component p then all_valid parts else false

module _ (is_normal : Text → Bool) where
  -- The components of the path that the source builds.
  unfoldable pub sanitize_relative : Text → Result (List Text) FileError
  unfolding split all_valid
  sanitize_relative name =
      if (if text_beq name []
        then true
        else if ltb 1000 (byte_len name)
        then true
        else if starts_with slash name
        then true
        else contains b'\\' name)
      then err bad_name
      else (let (part, parts) = split name in
          if not (all_valid (part ∷ parts))
          then err bad_name
          else if any (λ c. not (is_normal c)) (part ∷ parts)
          then err bad_name
          else ok (part ∷ parts))
