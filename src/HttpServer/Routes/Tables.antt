-- ===== src/HttpServer/Routes/Tables.antt =====
-- The registrations, and the tables that a history of them leaves.
use mathlib.Core.Option
use mathlib.Core.List.{append-nil, append_assoc}
use uni_serve_libhttp.Common.{
  ℕ, Bool-cases, ◌≡◌, refl, ap, sym, ◌∙◌, ◌↔◌, inl, inr, Bool, true, false, List, [], ◌∷◌, ◌++◌,
  Option, none, some, arith, Str, bytes, Lacks, find-none, Lacks-find, if◌then◌else◌, str_eq,
  str_eq_iff,
}
use uni_serve_libhttp.HttpServer.Wildcard.Translation.{items, wildcard_to_regex-items}
use uni_serve_libhttp.HttpServer.Routes.{
  RouteEntry, Router, has_wildcard, make_entry, no_routes, handlers_of,
}
use uni_serve_libhttp.HttpServer.Routes
use uni_serve_libhttp.HttpServer.Routes.Selection.{
  Method, get, post, put, del, method_name, Registration, IsExactPath,
}

-- The call whose table serves a request method.
pub method_of : Str → Option Method
method_of s =
    if str_eq s (bytes "GET")
    then some get
    else if str_eq s (bytes "POST")
    then some post
    else if str_eq s (bytes "PUT")
    then some put
    else if str_eq s (bytes "DELETE")
    then some del
    else none

pub method_of-method_name : (m : Method) → method_of (method_name m) ≡ some m
unfolding method_of str_eq
method_of-method_name get = refl
method_of-method_name post = refl
method_of-method_name put = refl
method_of-method_name del = refl

pub method_of_sound : (s : Str) (m : Method) → method_of s ≡ some m → s ≡ method_name m
unfolding method_of
method_of_sound s m e = ground (
  arith,
  str_eq_iff s (bytes "GET"),
  str_eq_iff s (bytes "POST"),
  str_eq_iff s (bytes "PUT"),
  str_eq_iff s (bytes "DELETE"),
)

-- Whether two registrations go to one table.
abbrev pub same_method : Method → Method → Bool
same_method get get = true
same_method post post = true
same_method put put = true
same_method del del = true
same_method _ _ = false

pub same_method_iff : (m n : Method) → (same_method m n ≡ true) ↔ (m ≡ n)
same_method_iff m n = ground arith

contains-Lacks : (c : ℕ) (s : Str) → (Routes.contains c s ≡ false) ↔ Lacks c s
contains-Lacks c s =
    (λ e. find-none c s (ground arith), λ h. rw (Lacks-find c s h, Routes.contains))

pub has_wildcard_iff : (p : Str) → (has_wildcard p ≡ false) ↔ IsExactPath p
has_wildcard_iff p = ground (arith, contains-Lacks b'*' p, contains-Lacks b'?' p)

module _ {H : Type 0} where
  -- The entry of a registration.
  abbrev pub entry_of : Registration H → RouteEntry H
  entry_of r = record {
    path = r.path;
    pattern = if has_wildcard r.path then some (items r.path) else none;
    handler = r.handler;
    is_wildcard = has_wildcard r.path;
  }

  pub make_entry-entry_of : (r : Registration H) → make_entry r.path r.handler ≡ some (entry_of r)
  unfolding make_entry
  make_entry-entry_of r = elim (Bool-cases (has_wildcard r.path)) [
    | inl e ↦ rw (e, wildcard_to_regex-items r.path)
    | inr e ↦ rw e
  ]

  -- The entries of the registrations for one method, in order.
  unfoldable pub entries_for : Method → List (Registration H) → List (RouteEntry H)
  entries_for m [] = []
  entries_for m (r ∷ rs) =
      if same_method r.method m then entry_of r ∷ entries_for m rs else entries_for m rs

  entries_for-cons :
      (m : Method) (r : Registration H) (rs : List (Registration H)) (xs : List (RouteEntry H))
      → (xs ++ entries_for m (r ∷ [])) ++ entries_for m rs ≡ xs ++ entries_for m (r ∷ rs)
  unfolding entries_for
  entries_for-cons m r rs xs =
      ground (arith, append_assoc xs (entry_of r ∷ []) (entries_for m rs), append-nil xs)

module _ {H M : Type 0} where
  -- One call of `get`, `post`, `put` or `del`.
  register_by : Method → Str → Option H → Router H M → Option (Router H M)
  register_by get = Routes.get
  register_by post = Routes.post
  register_by put = Routes.put
  register_by del = Routes.del

  pub register_all : List (Registration H) → Router H M → Option (Router H M)
  register_all [] t = some t
  register_all (r ∷ rs) t = elim (register_by r.method r.path r.handler t) [
    | none ↦ none
    | some t' ↦ register_all rs t'
  ]

  abbrev pub table : Method → Router H M → List (RouteEntry H)
  table get t = t.get_handlers
  table post t = t.post_handlers
  table put t = t.put_handlers
  table del t = t.delete_handlers

  -- The tables with the entries of further registrations behind their own.
  abbrev pub extended : List (Registration H) → Router H M → Router H M
  extended rs t = record t {
    get_handlers = t.get_handlers ++ entries_for get rs;
    post_handlers = t.post_handlers ++ entries_for post rs;
    put_handlers = t.put_handlers ++ entries_for put rs;
    delete_handlers = t.delete_handlers ++ entries_for del rs;
  }

  pub table-extended :
      (m : Method) (rs : List (Registration H)) (t : Router H M)
      → table m (extended rs t) ≡ table m t ++ entries_for m rs
  table-extended get rs t = refl
  table-extended post rs t = refl
  table-extended put rs t = refl
  table-extended del rs t = refl

  pub handlers_of-table :
      (s : Str) (t : Router H M) → handlers_of s t ≡ Option.map (λ m. table m t) (method_of s)
  unfolding handlers_of method_of
  handlers_of-table s t = ground arith

  register_by-extended :
      (m : Method) (r : Registration H) (t : Router H M)
      → m ≡ r.method
      → register_by m r.path r.handler t ≡ some (extended (r ∷ []) t)
  unfolding register_by Routes.get Routes.post Routes.put Routes.del entries_for
  register_by-extended get r t e = ground (
    arith,
    make_entry-entry_of r,
    append-nil t.get_handlers,
    append-nil t.post_handlers,
    append-nil t.put_handlers,
    append-nil t.delete_handlers,
  )
  register_by-extended _ r t e = ground (
    arith,
    make_entry-entry_of r,
    append-nil t.get_handlers,
    append-nil t.post_handlers,
    append-nil t.put_handlers,
    append-nil t.delete_handlers,
  )

  extended-nil : (t : Router H M) → extended [] t ≡ t
  unfolding entries_for
  extended-nil t = ground (
    arith,
    append-nil t.get_handlers,
    append-nil t.post_handlers,
    append-nil t.put_handlers,
    append-nil t.delete_handlers,
  )

  extended-cons :
      (r : Registration H) (rs : List (Registration H)) (t : Router H M)
      → extended rs (extended (r ∷ []) t) ≡ extended (r ∷ rs) t
  extended-cons r rs t = cc (
    entries_for-cons get r rs t.get_handlers,
    entries_for-cons post r rs t.post_handlers,
    entries_for-cons put r rs t.put_handlers,
    entries_for-cons del r rs t.delete_handlers,
  )

  -- No registration throws, and each puts its entry behind those of the table for its method.
  pub register_all-extended :
      (rs : List (Registration H)) (t : Router H M) → register_all rs t ≡ some (extended rs t)
  unfolding register_all
  register_all-extended [] t = ap some (sym (extended-nil t))
  register_all-extended (r ∷ rs) t =
      rw (register_by-extended r.method r t refl, register_all)
        (register_all-extended rs (extended (r ∷ []) t) ∙ ap some (extended-cons r rs t))
