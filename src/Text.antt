-- ===== src/Text.antt =====
-- Text as Rust's `str` gives it out: the list of its characters, each a Unicode scalar value. These
-- are the operations of the standard library that the program calls on strings.
pub mod Trim
use Prim.Native.Char.{code}
use Prim.Native.String.{String}
use recuerdos_ai.Prelude.{
  ℕ, ◌+◌, ◌-◌, ◌≡◌, refl, ◌↔◌, Bool, true, false, ◌&&◌, ◌||◌, Option, none, some, List, [], ◌∷◌,
  ◌++◌, map, arith, ltb, leb, ◌==◌, if◌then◌else◌, is_empty, Eq, length, ap, suc,
}

abbrev pub Text : Type 0
Text = List ℕ

-- The characters of a literal.
abbrev pub codes : String → Text
codes String.[] = []
codes (String.◌∷◌ c s) = code c ∷ codes s

unfoldable pub same_text : Text → Text → Bool
same_text [] [] = true
same_text (c ∷ s) (d ∷ t) = c == d && same_text s t
same_text _ _ = false

pub same_text_iff : (s t : Text) → (same_text s t ≡ true) ↔ (s ≡ t)
unfolding same_text
same_text_iff [] [] = ground arith
same_text_iff [] (d ∷ t) = ground arith
same_text_iff (c ∷ s) [] = ground arith
same_text_iff (c ∷ s) (d ∷ t) = ground (arith, same_text_iff s t)

instance abbrev pub text_eq : Eq Text
text_eq = record { beq = same_text; beq_iff = same_text_iff }

-- `char::is_whitespace`: the characters with the property White_Space.
unfoldable pub is_whitespace : ℕ → Bool
is_whitespace c =
    (leb 9 c && leb c 13)
    || c == 32
    || c == 0x85
    || c == 0xa0
    || c == 0x1680
    || (leb 0x2000 c && leb c 0x200a)
    || c == 0x2028
    || c == 0x2029
    || c == 0x202f
    || c == 0x205f
    || c == 0x3000

unfoldable pub trim_start : Text → Text
trim_start [] = []
trim_start (c ∷ s) = let rest = trim_start s in if is_whitespace c then rest else c ∷ s

unfoldable pub trim_end : Text → Text
trim_end [] = []
trim_end (c ∷ s) =
    let rest = trim_end s in if is_empty rest && is_whitespace c then [] else c ∷ rest

-- `str::trim`
unfoldable pub trim : Text → Text
unfolding trim_start trim_end
trim s = trim_end (trim_start s)

unfoldable pub ascii_lower : ℕ → ℕ
ascii_lower c = if leb b'A' c && leb c b'Z' then c + 32 else c

-- `str::to_ascii_lowercase`
unfoldable pub to_ascii_lowercase : Text → Text
unfolding ascii_lower
to_ascii_lowercase s = map ascii_lower s

-- `char::is_ascii_hexdigit`
unfoldable pub is_ascii_hexdigit : ℕ → Bool
is_ascii_hexdigit c =
    (leb b'0' c && leb c b'9') || (leb b'a' c && leb c b'f') || (leb b'A' c && leb c b'F')

-- `str::strip_prefix`
unfoldable pub strip_prefix : Text → Text → Option Text
strip_prefix [] s = some s
strip_prefix (p ∷ ps) [] = none
strip_prefix (p ∷ ps) (c ∷ s) = if p == c then strip_prefix ps s else none

-- How many bytes a character takes in UTF-8, and `str::len`.
unfoldable pub utf8_len : ℕ → ℕ
utf8_len c = if ltb c 0x80 then 1 else if ltb c 0x800 then 2 else if ltb c 0x10000 then 3 else 4

unfoldable pub byte_len : Text → ℕ
unfolding utf8_len
byte_len [] = 0
byte_len (c ∷ s) = utf8_len c + byte_len s

-- `chars().all(p)`
unfoldable pub all_chars : (ℕ → Bool) → Text → Bool
all_chars p [] = true
all_chars p (c ∷ s) = p c && all_chars p s

pub strip_prefix-append : (p s : Text) → strip_prefix p (p ++ s) ≡ some s
unfolding strip_prefix
strip_prefix-append [] s = refl
strip_prefix-append (c ∷ p) s = ground (arith, strip_prefix-append p s)

pub length-to_ascii_lowercase : (s : Text) → length (to_ascii_lowercase s) ≡ length s
unfolding to_ascii_lowercase
length-to_ascii_lowercase [] = refl
length-to_ascii_lowercase (c ∷ s) = ap suc (length-to_ascii_lowercase s)
