-- ===== src/HttpServer/Wildcard.antt =====
-- `HttpServer::wildcardToRegex` and `HttpServer::matchPath`.
pub mod Glob
pub mod Translation
pub mod Laws
mod Tests
use uni_serve_libhttp.Common.{
  ℕ, Bool, false, ◌||◌, List, [], ◌∷◌, ◌++◌, Option, none, some, ◌==◌, if◌then◌else◌, Str,
}
use uni_serve_libhttp.HttpServer.Regex.{Regex, compile, regex_match}

-- `. + ( ) [ ] { } ^ $ | \`
unfoldable pub is_escaped : ℕ → Bool
is_escaped c =
    c == b'.'
    || c == b'+'
    || c == b'('
    || c == b')'
    || c == b'['
    || c == b']'
    || c == b'{'
    || c == b'}'
    || c == b'^'
    || c == b'$'
    || c == b'|'
    || c == 92

-- What one round of the loop appends.
unfoldable pub translate : ℕ → Str
translate c =
    if c == b'*'
    then b'.' ∷ (b'*' ∷ [])
    else if c == b'?'
    then b'.' ∷ []
    else if is_escaped c
    then 92 ∷ (c ∷ [])
    else c ∷ []

unfoldable pub regex_pattern : Str → Str
regex_pattern [] = []
regex_pattern (c ∷ pattern) = translate c ++ regex_pattern pattern

-- `none` where the constructor of `std::regex` throws.
unfoldable pub wildcard_to_regex : Str → Option Regex
wildcard_to_regex pattern = compile (regex_pattern pattern)

-- A default-constructed `std::regex`, here `none`, matches nothing.
unfoldable pub match_path : Str → Option Regex → Bool
match_path path none = false
match_path path (some pattern) = regex_match pattern path
