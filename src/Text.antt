-- ===== src/Text.antt =====
-- Rust's `str` and `String` as src/deserializer.rs, src/dispatch.rs and src/server.rs use them: a
-- text is a list of Unicode scalar values, and every index is a byte offset of its UTF-8 form.
pub mod Split
pub mod Number
pub mod Words
pub mod Bytes
use gateway_proxy.Prelude.{
  ℕ, ◌+◌, ◌-◌, ◌/◌, ◌%◌, Bool, true, false, ◌&&◌, ◌||◌, Option, none, some, List, [], ◌∷◌, ◌++◌,
  leb, ltb, ◌==◌, if◌then◌else◌, ◌>>=◌,
}
use Prim.Native.Char.{code}
use Prim.Native.String.{String}
use mathlib.Core.Option

abbrev pub Text : Type 0
Text = List ℕ

-- The scalar values of a literal.
abbrev pub codes : String → Text
codes String.[] = []
codes (String.◌∷◌ c s) = code c ∷ codes s

-- The number of bytes of a scalar value in UTF-8, `char::len_utf8`.
unfoldable pub len_utf8 : ℕ → ℕ
len_utf8 c = if ltb c 0x80 then 1 else if ltb c 0x800 then 2 else if ltb c 0x10000 then 3 else 4

-- These bytes.
unfoldable pub utf8 : ℕ → List ℕ
utf8 c =
    if ltb c 0x80
    then c ∷ []
    else if ltb c 0x800
    then (0xC0 + c / 64) ∷ (0x80 + c % 64) ∷ []
    else if ltb c 0x10000
    then (0xE0 + c / 4096) ∷ (0x80 + c / 64 % 64) ∷ (0x80 + c % 64) ∷ []
    else (0xF0 + c / 262144) ∷ (0x80 + c / 4096 % 64) ∷ (0x80 + c / 64 % 64) ∷ (0x80 + c % 64) ∷ []

-- `str::len`.
unfoldable pub byte_len : Text → ℕ
byte_len [] = 0
byte_len (c ∷ s) = len_utf8 c + byte_len s

-- `str::as_bytes`.
unfoldable pub as_bytes : Text → List ℕ
as_bytes [] = []
as_bytes (c ∷ s) = utf8 c ++ as_bytes s

-- `char::is_whitespace`, the property White_Space of Unicode.
unfoldable pub is_whitespace : ℕ → Bool
is_whitespace c =
    (leb 9 c && leb c 13)
    || c == 0x20
    || c == 0x85
    || c == 0xA0
    || c == 0x1680
    || (leb 0x2000 c && leb c 0x200A)
    || c == 0x2028
    || c == 0x2029
    || c == 0x202F
    || c == 0x205F
    || c == 0x3000

unfoldable pub starts_with : Text → Text → Bool
starts_with [] s = true
starts_with (p ∷ ps) [] = false
starts_with (p ∷ ps) (c ∷ s) = p == c && starts_with ps s

-- A test of the first character, false at the end of the text.
abbrev pub at_char : (ℕ → Bool) → Text → Bool
at_char p [] = false
at_char p (c ∷ s) = p c

-- The byte offset of the first suffix that passes the test: `str::find` with a string pattern is
-- `find (starts_with key)`, and with a set of characters it is `find (at_char p)`.
unfoldable pub find : (Text → Bool) → Text → Option ℕ
unfolding len_utf8
find test [] = if test [] then some 0 else none
find test (c ∷ s) =
    let later = Option.map (λ o. len_utf8 c + o) (find test s) in
    if test (c ∷ s) then some 0 else later

-- `str.get(n..)`: `none` past the end and inside a character.
unfoldable pub get_from : Text → ℕ → Option Text
get_from [] n = if n == 0 then some [] else none
get_from (c ∷ s) n =
    if n == 0
    then some (c ∷ s)
    else if leb (len_utf8 c) n
    then get_from s (n - len_utf8 c)
    else none

-- `str.get(..n)`.
unfoldable pub get_to : Text → ℕ → Option Text
get_to [] n = if n == 0 then some [] else none
get_to (c ∷ s) n =
    let rest = Option.map (◌∷◌ c) (get_to s (n - len_utf8 c)) in
    if n == 0 then some [] else if leb (len_utf8 c) n then rest else none

-- `str.get(a..b)`.
unfoldable pub get_range : Text → ℕ → ℕ → Option Text
get_range s a b = if leb a b then (do t ← get_from s a; get_to t (b - a)) else none

-- `String::replace_range(a..b, with)`; `none` is its panic, on a range that is not one of the text.
unfoldable pub replace_range : Text → ℕ → ℕ → Text → Option Text
replace_range s a b new =
    if leb a b
    then (do before ← get_to s a; after ← get_from s b; some (before ++ (new ++ after)))
    else none
