-- ===== src/HttpServer/Query/Tests.antt =====
-- Queries at fixed inputs, and the laws applied to them.
use uni_serve_libhttp.Common.{
  ◌≡◌, ◌↔◌, find, insert, str_eq, refl, [], ◌∷◌, some, arith, bytes, lookup,
}
use uni_serve_libhttp.HttpServer.Split.{split_on, split_on-IsSplit}
use uni_serve_libhttp.HttpServer.Query.{Params, split_target, parse_query_params}
use uni_serve_libhttp.HttpServer.Query.Laws.{IsLast, parse_query_params_iff, parse-print}

abbrev two_params : Params
two_params = (bytes "q", bytes "a+b") ∷ ((bytes "page", bytes "2") ∷ [])

split_target_test : split_target (bytes "/find?q=1?2") ≡ (bytes "/find", bytes "q=1?2")
unfolding split_target find
split_target_test = refl

parse_test :
    parse_query_params split_on (bytes "q=a+b&&page=2&x=1=2&q")
    ≡ (bytes "q", []) ∷ ((bytes "", bytes "") ∷ ((bytes "page", bytes "2") ∷ []))
unfolding parse_query_params split_on insert str_eq
parse_test = refl

parse_query_params_iff_example :
    (lookup (bytes "a") (parse_query_params split_on (bytes "a=1&b&a=2")) ≡ some (bytes "2"))
    ↔ IsLast (bytes "a") (bytes "2") (bytes "a=1" ∷ (bytes "b" ∷ (bytes "a=2" ∷ [])))
parse_query_params_iff_example =
    parse_query_params_iff split_on-IsSplit (bytes "a") (bytes "2")
      (bytes "a=1" ∷ (bytes "b" ∷ (bytes "a=2" ∷ []))) (omega arith) (λ e. cc)

parse-print_example : parse_query_params split_on (bytes "q=a+b&page=2") ≡ two_params
parse-print_example =
    parse-print split_on-IsSplit two_params (omega arith) (((λ e. cc), tt), (tt, tt))
