-- ===== src/HttpServer/Wildcard/Translation.antt =====
-- The pattern that `wildcardToRegex` builds always compiles, to one item for each character.
use mathlib.Core.Option
use uni_serve_libhttp.Common.{
  ℕ, ◌≡◌, refl, false, List, [], ◌∷◌, some, arith, ◌==◌, ◌≢◌, if◌then◌else◌, Str,
}
use uni_serve_libhttp.HttpServer.Regex.{
  Atom, any, chr, Token, atom, repeat, Item, one, star, Regex, is_syntax, is_syntax_cases, lex,
  assemble, compile,
}
use uni_serve_libhttp.HttpServer.Wildcard.{is_escaped, translate, regex_pattern, wildcard_to_regex}

tokens : Str → List Token
tokens [] = []
tokens (c ∷ p) =
    if c == b'*'
    then atom any ∷ (repeat ∷ tokens p)
    else if c == b'?'
    then atom any ∷ tokens p
    else atom (chr c) ∷ tokens p

abbrev pub item : ℕ → Item
item c = if c == b'*' then star any else if c == b'?' then one any else one (chr c)

abbrev pub items : Str → Regex
items [] = []
items (c ∷ p) = item c ∷ items p

-- The code escapes exactly the other characters with a meaning.
is_syntax-is_escaped : (c : ℕ) → c ≢ b'*' → c ≢ b'?' → is_syntax c ≡ is_escaped c
unfolding is_syntax is_escaped
is_syntax-is_escaped c h k = ground arith

lex-regex_pattern : (p : Str) → lex false (regex_pattern p) ≡ some (tokens p)
unfolding lex regex_pattern translate tokens
lex-regex_pattern [] = refl
lex-regex_pattern (c ∷ p) =
    ground (arith, lex-regex_pattern p, is_syntax-is_escaped c, is_syntax_cases c)

assemble-atom :
    (a : Atom) (p : Str)
    → assemble (atom a ∷ tokens p) ≡ Option.map (◌∷◌ (one a)) (assemble (tokens p))
unfolding assemble tokens
assemble-atom a [] = refl
assemble-atom a (c ∷ p) = ground arith

assemble-tokens : (p : Str) → assemble (tokens p) ≡ some (items p)
unfolding assemble tokens
assemble-tokens [] = refl
assemble-tokens (c ∷ p) =
    ground (arith, assemble-tokens p, assemble-atom any p, assemble-atom (chr c) p)

pub wildcard_to_regex-items : (p : Str) → wildcard_to_regex p ≡ some (items p)
unfolding wildcard_to_regex compile
wildcard_to_regex-items p = rw (lex-regex_pattern p) (assemble-tokens p)
