-- ===== src/HttpServer/Routes.antt =====
-- The route tables of `HttpServer`: `RouteEntry`, the four registrations, `use`,
-- `setStaticDirectory` and `findRoute`. The types of the handlers and of the middlewares are
-- parameters; an empty `std::function` is `none`.
pub mod Selection
pub mod Tables
pub mod Laws
pub mod Registered
mod Tests
use mathlib.Core.Option
use uni_serve_libhttp.Common.{
  ℕ, Bool, true, false, not, ◌&&◌, ◌||◌, List, [], ◌∷◌, ◌++◌, Option, none, some, if◌then◌else◌,
  Str, bytes, str_eq, find, find?,
}
use uni_serve_libhttp.HttpServer.Regex.{Regex}
use uni_serve_libhttp.HttpServer.Wildcard.{wildcard_to_regex, match_path}

-- `pattern` is `none` where the default-constructed expression is left in place.
pub record RouteEntry (H : Type 0) : Type 0 where
  pub path : Str
  pub pattern : Option Regex
  pub handler : Option H
  pub is_wildcard : Bool

pub record Router (H M : Type 0) : Type 0 where
  pub get_handlers : List (RouteEntry H)
  pub post_handlers : List (RouteEntry H)
  pub put_handlers : List (RouteEntry H)
  pub delete_handlers : List (RouteEntry H)
  pub middlewares : List (Option M)
  pub static_directory : Str

-- `path.find(c) != npos`
abbrev pub contains : ℕ → Str → Bool
contains c path = elim (find c path) [ none ↦ false | some pos ↦ true ]

abbrev pub has_wildcard : Str → Bool
has_wildcard path = contains b'*' path || contains b'?' path

module _ {H : Type 0} where
  -- The entry that each registration builds; `none` where `wildcardToRegex` throws.
  unfoldable pub make_entry : Str → Option H → Option (RouteEntry H)
  make_entry path handler =
      if has_wildcard path
      then Option.map
          (λ r. record { path = path; pattern = some r; handler = handler; is_wildcard = true })
          (wildcard_to_regex path)
      else some (record { path = path; pattern = none; handler = handler; is_wildcard = false })

module _ {H M : Type 0} where
  abbrev pub no_routes : Router H M
  no_routes = record {
    get_handlers = [];
    post_handlers = [];
    put_handlers = [];
    delete_handlers = [];
    middlewares = [];
    static_directory = [];
  }

  unfoldable pub get : Str → Option H → Router H M → Option (Router H M)
  get path handler t =
      Option.map (λ e. record t { get_handlers = t.get_handlers ++ (e ∷ []) })
        (make_entry path handler)

  unfoldable pub post : Str → Option H → Router H M → Option (Router H M)
  post path handler t =
      Option.map (λ e. record t { post_handlers = t.post_handlers ++ (e ∷ []) })
        (make_entry path handler)

  unfoldable pub put : Str → Option H → Router H M → Option (Router H M)
  put path handler t =
      Option.map (λ e. record t { put_handlers = t.put_handlers ++ (e ∷ []) })
        (make_entry path handler)

  unfoldable pub del : Str → Option H → Router H M → Option (Router H M)
  del path handler t =
      Option.map (λ e. record t { delete_handlers = t.delete_handlers ++ (e ∷ []) })
        (make_entry path handler)

  unfoldable pub use_middleware : Option M → Router H M → Router H M
  use_middleware m t = record t { middlewares = t.middlewares ++ (m ∷ []) }

  unfoldable pub set_static_directory : Str → Router H M → Router H M
  set_static_directory path t = record t { static_directory = path }

  -- The table that the method's name selects.
  unfoldable pub handlers_of : Str → Router H M → Option (List (RouteEntry H))
  handlers_of method t =
      if str_eq method (bytes "GET")
      then some t.get_handlers
      else if str_eq method (bytes "POST")
      then some t.post_handlers
      else if str_eq method (bytes "PUT")
      then some t.put_handlers
      else if str_eq method (bytes "DELETE")
      then some t.delete_handlers
      else none

module _ {H : Type 0} where
  abbrev pub is_exact : Str → RouteEntry H → Bool
  is_exact path e = not e.is_wildcard && str_eq e.path path

  abbrev pub is_match : Str → RouteEntry H → Bool
  is_match path e = e.is_wildcard && match_path path e.pattern

  -- The two loops over a table.
  unfoldable pub find_entry : List (RouteEntry H) → Str → Option (RouteEntry H)
  find_entry handlers path = elim (find? (is_exact path) handlers) [
    | some e ↦ some e
    | none ↦ find? (is_match path) handlers
  ]

  abbrev pub handler_of : Option (RouteEntry H) → Option H
  handler_of none = none
  handler_of (some e) = e.handler

-- `none` is a null or an empty handler.
unfoldable pub find_route : {H M : Type 0} → Router H M → Str → Str → Option H
unfolding handlers_of find_entry
find_route t method path = elim (handlers_of method t) [
  | none ↦ none
  | some handlers ↦ handler_of (find_entry handlers path)
]
