-- ===== src/HttpServer/Regex.antt =====
-- What `HttpServer` uses of `std::regex`: the ECMAScript grammar under `icase`, of which the
-- patterns that `wildcardToRegex` builds hold characters, escaped punctuation, `.` and `*`; and
-- `std::regex_match`. Other syntax is outside this fragment and reads as `none`, and so do the
-- patterns that the constructor refuses with a `std::regex_error`.
use mathlib.Core.Option
use uni_serve_libhttp.Common.{
  ℕ, ◌+◌, ◌≡◌, ◌≢◌, Bool, true, false, not, ◌&&◌, ◌||◌, List, [], ◌∷◌, Option, none, some, arith,
  ◌==◌, leb, if◌then◌else◌, Str,
}

pub data Atom : Type 0 where
  any : Atom
  chr : ℕ → Atom

pub data Token : Type 0 where
  atom : Atom → Token
  repeat : Token

pub data Item : Type 0 where
  one : Atom → Item
  star : Atom → Item

abbrev pub Regex : Type 0
Regex = List Item

-- The characters with a meaning of their own in the grammar: ^ $ \ . * + ? ( ) [ ] { } |
unfoldable pub is_syntax : ℕ → Bool
is_syntax c =
    c == 94
    || c == 36
    || c == 92
    || c == 46
    || c == 42
    || c == 43
    || c == 63
    || c == 40
    || c == 41
    || c == 91
    || c == 93
    || c == 123
    || c == 125
    || c == 124

-- Among them are the three that `lex` gives a meaning.
pub is_syntax_cases : (c : ℕ) → is_syntax c ≡ false → (c ≢ 92) × (c ≢ 46) × (c ≢ 42)
unfolding is_syntax
is_syntax_cases c h = ground arith

-- `escaped` says that a backslash stands before the text.
unfoldable pub lex : Bool → Str → Option (List Token)
lex true [] = none
lex false [] = some []
lex true (c ∷ s) =
    let rest = lex false s in if is_syntax c then Option.map (◌∷◌ (atom (chr c))) rest else none
lex false (c ∷ s) =
    let escaped = lex true s in
    let rest = lex false s in
    if c == 92
    then escaped
    else if c == 46
    then Option.map (◌∷◌ (atom any)) rest
    else if c == 42
    then Option.map (◌∷◌ repeat) rest
    else if is_syntax c
    then none
    else Option.map (◌∷◌ (atom (chr c))) rest

-- A `*` repeats the atom before it, and none other stands behind it.
unfoldable pub assemble : List Token → Option Regex
assemble [] = some []
assemble (repeat ∷ ts) = none
assemble (atom a ∷ (repeat ∷ ts)) = Option.map (◌∷◌ (star a)) (assemble ts)
assemble (atom a ∷ ts) = Option.map (◌∷◌ (one a)) (assemble ts)

assemble_tokens : Option (List Token) → Option Regex
assemble_tokens none = none
assemble_tokens (some ts) = assemble ts

-- `std::regex(pattern, std::regex::icase)`
unfoldable pub compile : Str → Option Regex
unfolding assemble_tokens
compile pattern = assemble_tokens (lex false pattern)

-- `tolower` in the "C" locale
abbrev pub to_lower : ℕ → ℕ
to_lower c = if leb 65 c && leb c 90 then c + 32 else c

-- `.` matches every character but a line terminator.
unfoldable pub test : Atom → ℕ → Bool
test any x = not (x == 10 || x == 13)
test (chr c) x = to_lower c == to_lower x

-- `std::regex_match`: the whole text, with backtracking.
unfoldable pub regex_match : Regex → Str → Bool
regex_match [] [] = true
regex_match [] (x ∷ s) = false
regex_match (one a ∷ r) [] = false
regex_match (one a ∷ r) (x ∷ s) = test a x && regex_match r s
regex_match (star a ∷ r) [] = regex_match r []
regex_match (star a ∷ r) (x ∷ s) =
    let skip = regex_match r (x ∷ s) in
    let more = regex_match (star a ∷ r) s in skip || (test a x && more)
