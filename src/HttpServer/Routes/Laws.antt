-- ===== src/HttpServer/Routes/Laws.antt =====
-- `findRoute` after any history of registrations.
use mathlib.Core.Option.{some-injective}
use uni_serve_libhttp.Common.{
  ◌≡◌, refl, ap, sym, ◌∙◌, ◌↔◌, ◌≢◌, inl, inr, Bool, true, false, List, [], ◌∷◌, none, some, arith,
  All, Str, find?, str_eq, str_eq_iff, Bool-cases, Option-cases,
}
use uni_serve_libhttp.HttpServer.Wildcard.Laws.{match_path-items}
use uni_serve_libhttp.HttpServer.Routes.{
  RouteEntry, Router, is_exact, is_match, find_entry, handler_of, find_route, handlers_of,
  no_routes,
}
use uni_serve_libhttp.HttpServer.Routes.Selection.{
  Method, get, post, put, del, method_name, Registration, IsExactFor, IsWildcardFor, First, here,
  there, Selects, exact, wildcard, nothing,
}
use uni_serve_libhttp.HttpServer.Routes.Tables.{
  method_of, method_of-method_name, method_of_sound, same_method, same_method_iff, has_wildcard_iff,
  entry_of, entries_for, extended, handlers_of-table, register_all, register_all-extended,
}

true-false : {b : Bool} → b ≡ true → b ≡ false → ⊥
true-false e f = cc

none-ne-some : {m : Method} → none ≡ some m → ⊥
none-ne-some e = cc

method_name_inj : (m n : Method) → method_name m ≡ method_name n → m ≡ n
method_name_inj m n e =
    some-injective m n (sym (method_of-method_name m) ∙ (ap method_of e ∙ method_of-method_name n))

other_method : (method : Str) (m : Method) → method_of method ≡ none → method ≢ method_name m
other_method method m e h = none-ne-some (sym e ∙ (ap method_of h ∙ method_of-method_name m))

module _ {H : Type 0} where
  -- A registration fits a request exactly if it is for the method and its entry passes the test.
  abbrev Decides : (RouteEntry H → Bool) → Method → (Registration H → Type 0) → Type 0
  Decides p m P =
      (r : Registration H) → ((same_method r.method m ≡ true) × (p (entry_of r) ≡ true)) ↔ P r

  data Search (p : RouteEntry H → Bool) (m : Method) (P : Registration H → Type 0)
      (rs : List (Registration H)) : Type 0 where
    found :
        (r : Registration H)
        → First P r rs
        → find? p (entries_for m rs) ≡ some (entry_of r)
        → Search p m P rs
    missed : All (λ r. ¬ P r) rs → find? p (entries_for m rs) ≡ none → Search p m P rs

  Search-step :
      (p : RouteEntry H → Bool) (m : Method) (P : Registration H → Type 0) (r : Registration H)
      (rs : List (Registration H))
      → ¬ P r
      → find? p (entries_for m (r ∷ rs)) ≡ find? p (entries_for m rs)
      → Search p m P rs
      → Search p m P (r ∷ rs)
  Search-step p m P r rs n e (found x f g) = found x (there n f) (e ∙ g)
  Search-step p m P r rs n e (missed f g) = missed (n, f) (e ∙ g)

  -- The loops over a table find the first registration that fits.
  Search-entries_for :
      (p : RouteEntry H → Bool) (m : Method) (P : Registration H → Type 0)
      → Decides p m P
      → (rs : List (Registration H)) → Search p m P rs
  unfolding find? entries_for
  Search-entries_for p m P d [] = missed tt refl
  Search-entries_for p m P d (r ∷ rs) = elim (Bool-cases (same_method r.method m)) [
    | inl e ↦ elim (Bool-cases (p (entry_of r))) [
      | inl f ↦ found r (here ((d r).0 (e, f))) (ground arith)
      | inr f ↦
          Search-step p m P r rs (λ h. true-false ((d r).1 h).1 f) (ground arith)
            (Search-entries_for p m P d rs)
    ]
    | inr e ↦
        Search-step p m P r rs (λ h. true-false ((d r).1 h).0 e) (ground arith)
          (Search-entries_for p m P d rs)
  ]

  IsExactFor-Decides :
      (m : Method) (path : Str) → Decides (is_exact path) m (IsExactFor (method_name m) path)
  IsExactFor-Decides m path r = ground (
    arith,
    same_method_iff r.method m,
    has_wildcard_iff r.path,
    str_eq_iff r.path path,
    method_name_inj r.method m,
  )

  IsWildcardFor-Decides :
      (m : Method) (path : Str) → Decides (is_match path) m (IsWildcardFor (method_name m) path)
  IsWildcardFor-Decides m path r = ground (
    arith,
    same_method_iff r.method m,
    has_wildcard_iff r.path,
    match_path-items r.path path,
    method_name_inj r.method m,
  )

  find_entry-Selects :
      (m : Method) (path : Str) (rs : List (Registration H))
      → Selects rs (method_name m) path (handler_of (find_entry (entries_for m rs) path))
  unfolding find_entry
  find_entry-Selects m path rs =
      elim (Search-entries_for (is_exact path) m (IsExactFor (method_name m) path)
        (IsExactFor-Decides m path) rs) [
          | found r f e ↦ exact r f (rw (e, find_entry))
          | missed n e ↦
              elim (Search-entries_for (is_match path) m (IsWildcardFor (method_name m) path)
                (IsWildcardFor-Decides m path) rs) [
                  | found r f g ↦ wildcard r n f (rw (e, g, find_entry))
                  | missed k g ↦ nothing n k (rw (e, g, find_entry))
                ]
        ]

  All-not :
      {P : Registration H → Type 0}
      → ((r : Registration H) → ¬ P r)
      → (rs : List (Registration H)) → All (λ r. ¬ P r) rs
  All-not n [] = tt
  All-not n (r ∷ rs) = (n r, All-not n rs)

module _ {H : Type 0} (M : Type 0) where
  handlers_of-extended :
      (m : Method) (rs : List (Registration H))
      → handlers_of (method_name m) (extended rs (no_routes {H = H} {M = M}))
        ≡ some (entries_for m rs)
  unfolding handlers_of str_eq
  handlers_of-extended get rs = refl
  handlers_of-extended post rs = refl
  handlers_of-extended put rs = refl
  handlers_of-extended del rs = refl

  extended-Selects :
      (rs : List (Registration H)) (method path : Str)
      → Selects rs method path (find_route (extended rs (no_routes {H = H} {M = M})) method path)
  unfolding find_route
  extended-Selects rs method path = elim (Option-cases (method_of method)) [
    | inr (m, e) ↦
        rw (method_of_sound method m e, handlers_of-extended m rs, find_route)
          (find_entry-Selects m path rs)
    | inl e ↦
        nothing (All-not (λ r h. other_method method r.method e h.0) rs)
          (All-not (λ r h. other_method method r.method e h.0) rs)
          (rw (handlers_of-table method (extended rs (no_routes {H = H} {M = M})), e, find_route))
  ]

  -- Any history of registrations succeeds, and then the handler found for a method and a path is
  -- that of the first registration for the method without a wildcard whose path is equal; where
  -- there is none, that of the first one for the method with a wildcard whose pattern matches;
  -- and none where there is none of these.
  pub find_route-Selects :
      (rs : List (Registration H))
      → (t : Router H M) × (register_all rs no_routes ≡ some t)
        × ((method path : Str) → Selects rs method path (find_route t method path))
  find_route-Selects rs =
      (extended rs no_routes, register_all-extended rs no_routes, extended-Selects rs)
