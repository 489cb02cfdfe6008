-- ===== src/HttpServer/Query.antt =====
-- `HttpServer::parseQueryParams`, and the split of a request target at its '?' that
-- `HttpServer::handleRequest` makes first.
pub mod Pairs
pub mod Laws
mod Tests
use mathlib.Core.List.{foldl}
use uni_serve_libhttp.Common.{
  ℕ, suc, List, [], ◌∷◌, none, some, if◌then◌else◌, take, drop, Str, empty, find, insert,
}

-- `std::unordered_map<std::string, std::string>`
abbrev pub Params : Type 0
Params = List (Str × Str)

-- The two tests on `key_value.size()`.
unfoldable pub assign : List Str → Params → Params
assign (key ∷ value ∷ []) params = insert key value params
assign (key ∷ []) params = insert key [] params
assign _ params = params

-- The path and the query of a target.
unfoldable pub split_target : Str → Str × Str
split_target target = elim (find b'?' target) [
  | none ↦ (target, [])
  | some query_pos ↦ (take query_pos target, drop (suc query_pos) target)
]

module _ (split : ℕ → Str → List Str) where
  -- One round of the loop over the pairs.
  unfoldable pub parse_pair : Params → Str → Params
  parse_pair params pair = assign (split b'=' pair) params

  unfoldable pub parse_query_params : Str → Params
  unfolding parse_pair assign
  parse_query_params query = if empty query then [] else foldl parse_pair [] (split b'&' query)
