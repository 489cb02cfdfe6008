-- ===== src/HttpServer/Wildcard/Tests.antt =====
-- Patterns at fixed inputs, and the law applied to them.
use uni_serve_libhttp.Common.{◌≡◌, ◌↔◌, refl, true, false, some, bytes}
use uni_serve_libhttp.HttpServer.Regex.{Regex, lex, assemble, is_syntax, test, compile, regex_match}
use uni_serve_libhttp.HttpServer.Wildcard.{
  is_escaped, translate, regex_pattern, wildcard_to_regex, match_path,
}
use uni_serve_libhttp.HttpServer.Wildcard.Glob.{Glob}
use uni_serve_libhttp.HttpServer.Wildcard.Laws.{match_path_iff}

pattern_test : regex_pattern (bytes "/v1.?/*+") ≡ bytes "/v1\\../.*\\+"
unfolding regex_pattern translate is_escaped
pattern_test = refl

matched : match_path (bytes "/V1.0/a/b.js") (wildcard_to_regex (bytes "/v1.?/*.js")) ≡ true
unfolding match_path wildcard_to_regex regex_pattern translate is_escaped compile lex assemble
    is_syntax test regex_match
matched = refl

unmatched : match_path (bytes "/v1x0/b.js") (wildcard_to_regex (bytes "/v1.?/*.js")) ≡ false
unfolding match_path wildcard_to_regex regex_pattern translate is_escaped compile lex assemble
    is_syntax test regex_match
unmatched = refl

match_path_iff_example :
    (r : Regex) × (wildcard_to_regex (bytes "/api/*.js") ≡ some r)
    × ((match_path (bytes "/API/a.js") (some r) ≡ true)
        ↔ Glob (bytes "/api/*.js") (bytes "/API/a.js"))
match_path_iff_example = match_path_iff (bytes "/api/*.js") (bytes "/API/a.js")
