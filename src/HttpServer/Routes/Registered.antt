-- ===== src/HttpServer/Routes/Registered.antt =====
-- What a client of the route tables needs to know of a registration.
use mathlib.Core.Option.{some-injective}
use mathlib.Core.List.{append-nil, append_assoc}
use uni_serve_libhttp.Common.{
  ◌≡◌, refl, ap, sym, ◌∙◌, subst, List, [], ◌∷◌, ◌++◌, Option, some, Str, All,
}
use uni_serve_libhttp.HttpServer.Routes.{Router, no_routes, find_route, use_middleware, handlers_of}
use uni_serve_libhttp.HttpServer.Routes.Selection.{
  Registration, IsExactFor, First, here, there, Selects, exact, wildcard, nothing,
}
use uni_serve_libhttp.HttpServer.Routes.Tables.{register_all, register_all-extended, extended}
use uni_serve_libhttp.HttpServer.Routes.Laws.{find_route-Selects}

module _ {A : Type 0} (P : A → Type 0) where
  First-once : (a b : A) (xs : List A) → First P a xs → First P b xs → a ≡ b
  First-once a b _ (here p) (here q) = refl
  First-once a b _ (here p) (there n f) = absurd (n p)
  First-once a b _ (there n f) (here q) = absurd (n q)
  First-once a b _ (there n f) (there m g) = First-once a b _ f g

  First-All : (a : A) (xs : List A) → First P a xs → All (λ x. ¬ P x) xs → ⊥
  First-All a _ (here p) (n, h) = n p
  First-All a _ (there m f) (n, h) = First-All a _ f h

module _ {H : Type 0} where
  handler-Selects :
      (rs : List (Registration H)) (method path : Str) (reg : Registration H) (h : Option H)
      → First (IsExactFor method path) reg rs
      → Selects rs method path h
      → h ≡ reg.handler
  handler-Selects rs method path reg h f (exact r g e) =
      e ∙ ap (λ k. k.handler) (First-once (IsExactFor method path) r reg rs g f)
  handler-Selects rs method path reg h f (wildcard r n g e) =
      absurd (First-All (IsExactFor method path) reg rs f n)
  handler-Selects rs method path reg h f (nothing n k e) =
      absurd (First-All (IsExactFor method path) reg rs f n)

module _ {H M : Type 0} where
  -- The first registration of a path without wildcards serves it.
  pub find_route-First :
      (rs : List (Registration H)) (t : Router H M) (method path : Str) (reg : Registration H)
      → register_all rs no_routes ≡ some t
      → First (IsExactFor method path) reg rs
      → find_route t method path ≡ reg.handler
  find_route-First rs t method path reg e f =
      let (u, d, s) = find_route-Selects M rs in
      handler-Selects rs method path reg _ f (
        subst (λ v. Selects rs method path (find_route v method path))
          (some-injective u t (sym d ∙ e)) (s method path))

  -- Registrations leave the middlewares alone.
  pub middlewares-register_all :
      (rs : List (Registration H)) (t : Router H M)
      → register_all rs no_routes ≡ some t
      → t.middlewares ≡ []
  middlewares-register_all rs t e =
      ap (λ u. u.middlewares)
        (sym
          (some-injective (extended rs no_routes) t (sym (register_all-extended rs no_routes) ∙ e)))

  -- `use` for each middleware in turn.
  pub use_all : List (Option M) → Router H M → Router H M
  use_all [] t = t
  use_all (m ∷ ms) t = use_all ms (use_middleware m t)

  use_all-append :
      (ms : List (Option M)) (t : Router H M)
      → use_all ms t ≡ record t { middlewares = t.middlewares ++ ms }
  unfolding use_all use_middleware
  use_all-append [] t = ap (λ ms. record t { middlewares = ms }) (sym (append-nil t.middlewares))
  use_all-append (m ∷ ms) t =
      use_all-append ms (use_middleware m t)
      ∙ ap (λ ns. record t { middlewares = ns }) (append_assoc t.middlewares (m ∷ []) ms)

  -- Registrations, and then middlewares: the routes are those of the registrations, and the
  -- middlewares those that were used, in order.
  pub find_route-use_all :
      (rs : List (Registration H)) (ms : List (Option M)) (t : Router H M) (method path : Str)
      → register_all rs no_routes ≡ some t
      → ((use_all ms t).middlewares ≡ ms)
        × (find_route (use_all ms t) method path ≡ find_route t method path)
  unfolding find_route handlers_of
  find_route-use_all rs ms t method path e = (
    ap (λ u. u.middlewares) (use_all-append ms t)
        ∙ ap (λ ns. ns ++ ms) (middlewares-register_all rs t e),
    ap (λ u. find_route u method path) (use_all-append ms t),
  )
