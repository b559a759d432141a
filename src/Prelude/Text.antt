-- ===== src/Prelude/Text.antt =====
-- What Go's package strings does with ASCII texts, character by character.
use Prim.Native.Char.{Char, code}
use Prim.Native.String.{String}
use gpt2api.Prelude.{ℕ, zero, suc, ◌==◌, leb, if◌then◌else◌}
-- `strings.HasPrefix`, the text first
pub use text.Mathlib.Text.{starts_with}
pub use text.Mathlib.TextPositions.{starts_with-append}

-- `s[:n]`, or the whole text where it is shorter.
unfoldable pub first_chars : ℕ → String → String
first_chars zero s = ""
first_chars (suc n) String.[] = ""
first_chars (suc n) (String.◌∷◌ c s) = String.◌∷◌ c (first_chars n s)

-- `strings.ReplaceAll` of one character by another.
unfoldable pub replace_char : ℕ → Char → String → String
replace_char a d String.[] = ""
replace_char a d (String.◌∷◌ c s) = String.◌∷◌ (if code c == a then d else c) (replace_char a d s)

-- `len(s)` of an ASCII text.
unfoldable pub count_chars : String → ℕ
count_chars String.[] = 0
count_chars (String.◌∷◌ c s) = suc (count_chars s)

-- `s[len(s)-n:]`
unfoldable pub last_chars : ℕ → String → String
last_chars n String.[] = ""
last_chars n (String.◌∷◌ c s) =
    if leb (suc (count_chars s)) n then String.◌∷◌ c s else last_chars n s

-- `strings.Repeat("*", n)`
unfoldable pub stars : ℕ → String
stars zero = ""
stars (suc n) = String.◌∷◌ "*" (stars n)
