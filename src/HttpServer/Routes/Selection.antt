-- ===== src/HttpServer/Routes/Selection.antt =====
-- What the route tables promise, stated over the history of registrations.
use uni_serve_libhttp.Common.{◌≡◌, List, ◌∷◌, Option, none, All, Str, bytes, Lacks}
use uni_serve_libhttp.HttpServer.Wildcard.Glob.{Glob}

-- The four calls that register a handler.
pub data Method : Type 0 where
  get post put del : Method

abbrev pub method_name : Method → Str
method_name get = bytes "GET"
method_name post = bytes "POST"
method_name put = bytes "PUT"
method_name del = bytes "DELETE"

pub record Registration (H : Type 0) : Type 0 where
  pub method : Method
  pub path : Str
  pub handler : Option H

-- A path without '*' and '?'.
abbrev pub IsExactPath : Str → Type 0
IsExactPath p = Lacks b'*' p × Lacks b'?' p

module _ {H : Type 0} (method path : Str) where
  abbrev pub IsExactFor : Registration H → Type 0
  IsExactFor r = (method ≡ method_name r.method) × IsExactPath r.path × (r.path ≡ path)

  abbrev pub IsWildcardFor : Registration H → Type 0
  IsWildcardFor r = (method ≡ method_name r.method) × (¬ IsExactPath r.path) × Glob r.path path

-- The first element with the property.
pub data First {A : Type 0} (P : A → Type 0) (a : A) : List A → Type 0 where
  here : {xs : List A} → P a → First P a (a ∷ xs)
  there : {x : A} {xs : List A} → ¬ P x → First P a xs → First P a (x ∷ xs)

-- The handler for a request: the first exact registration, else the first wildcard registration
-- that matches, else none.
pub data Selects {H : Type 0} (rs : List (Registration H)) (method path : Str) (h : Option H)
    : Type 0 where
  exact :
      (r : Registration H)
      → First (IsExactFor method path) r rs
      → h ≡ r.handler
      → Selects rs method path h
  wildcard :
      (r : Registration H)
      → All (λ x. ¬ IsExactFor method path x) rs
      → First (IsWildcardFor method path) r rs
      → h ≡ r.handler
      → Selects rs method path h
  nothing :
      All (λ x. ¬ IsExactFor method path x) rs
      → All (λ x. ¬ IsWildcardFor method path x) rs
      → h ≡ none
      → Selects rs method path h
