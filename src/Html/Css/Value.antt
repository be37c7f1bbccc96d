-- ===== src/Html/Css/Value.antt =====
-- The values of html/src/css/css_parser.c: lengths and colours. `x & 0xF` is `x % 16`. strtod is not in
-- the repository: it is a parameter that returns a number and the text behind it.
pub mod Digits
use prismatic_os.Base.{ℕ, ◌*◌, ◌/◌, ◌%◌, ◌^◌, [], ◌∷◌, ◌==◌, if◌then◌else◌, Bytes, length}
use prismatic_os.Libc.Ctype.{isspace}
use prismatic_os.Libc.Str.{head_byte}
use prismatic_os.Libc.Strtol.{tail, strtoul}
use prismatic_os.Html.Token.{is_nil, skip_space}

pub record Color : Type 0 where
  pub r : ℕ
  pub g : ℕ
  pub b : ℕ
  pub a : ℕ

-- css_value_create clears the value.
abbrev pub no_color : Color
no_color = record { r = 0; g = 0; b = 0; a = 0 }

abbrev pub hex_color : (length color : ℕ) → Color
hex_color length color =
    if length == 4
    then record {
      r = color / 2 ^ 8 % 16 * 17;
      g = color / 2 ^ 4 % 16 * 17;
      b = color % 16 * 17;
      a = 255;
    }
    else if length == 5
    then record {
      r = color / 2 ^ 12 % 16 * 17;
      g = color / 2 ^ 8 % 16 * 17;
      b = color / 2 ^ 4 % 16 * 17;
      a = color % 16 * 17;
    }
    else if length == 7
    then record { r = color / 2 ^ 16 % 256; g = color / 2 ^ 8 % 256; b = color % 256; a = 255 }
    else if length == 9
    then record {
      r = color / 2 ^ 24 % 256;
      g = color / 2 ^ 16 % 256;
      b = color / 2 ^ 8 % 256;
      a = color % 256;
    }
    else no_color

pub css_value_parse_color : Bytes → Color
css_value_parse_color str =
    if head_byte str == b'#'
    then hex_color (length str) ((strtoul (tail str) 16).0 % 2 ^ 32)
    else no_color

-- The number and the unit of a length.
pub css_value_parse_length {ℓ} : {D : Type ℓ} → (Bytes → D × Bytes) → Bytes → D × Bytes
css_value_parse_length strtod str =
    let (value, rest) = strtod str in
    let unit = skip_space rest in (value, if is_nil unit then b'p' ∷ b'x' ∷ [] else unit)
