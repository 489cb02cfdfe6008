-- ===== src/HttpServer/Wildcard/Laws.antt =====
-- Matching a path against a registered pattern decides `Glob`.
use uni_serve_libhttp.Common.{
  ◌≡◌, ◌↔◌, refl, true, [], ◌∷◌, some, arith, ◌==◌, ==_iff, Bool-cases, inl, inr, Str,
}
use uni_serve_libhttp.HttpServer.Regex.{any, Regex, regex_match, test, star}
use uni_serve_libhttp.HttpServer.Wildcard.{wildcard_to_regex, match_path}
use uni_serve_libhttp.HttpServer.Wildcard.Glob.{Glob, done, skip, take_in, single, same}
use uni_serve_libhttp.HttpServer.Wildcard.Translation.{items, wildcard_to_regex-items}

regex_match-star :
    (r : Regex) (s : Str) → regex_match r s ≡ true → regex_match (star any ∷ r) s ≡ true
unfolding regex_match
regex_match-star r [] h = h
regex_match-star r (x ∷ s) h = rw h

Glob-items : {p s : Str} → Glob p s → regex_match (items p) s ≡ true
unfolding regex_match test
Glob-items done = refl
Glob-items (skip {c} {p} {s} e g) = ground (arith, regex_match-star (items p) s (Glob-items g))
Glob-items (take_in {c} {x} {p} {s} e h g) = ground (arith, Glob-items g)
Glob-items (single e h g) = ground (arith, Glob-items g)
Glob-items (same n m e g) = ground (arith, Glob-items g)

items-Glob : (p s : Str) → regex_match (items p) s ≡ true → Glob p s
unfolding regex_match test
items-Glob [] [] h = done
items-Glob [] (x ∷ s) h = cc
items-Glob (c ∷ p) [] h = elim (Bool-cases (c == b'*')) [
  | inl e ↦ skip ((==_iff c b'*').0 e) (items-Glob p [] (ground arith))
  | inr n ↦ absurd (ground arith)
]
items-Glob (c ∷ p) (x ∷ s) h = elim (Bool-cases (c == b'*')) [
  | inl e ↦ elim (Bool-cases (regex_match (items p) (x ∷ s))) [
    | inl skipped ↦ skip ((==_iff c b'*').0 e) (items-Glob p (x ∷ s) skipped)
    | inr n ↦ take_in ((==_iff c b'*').0 e) (ground arith) (items-Glob (c ∷ p) s (ground arith))
  ]
  | inr n ↦ elim (Bool-cases (c == b'?')) [
    | inl e ↦ single ((==_iff c b'?').0 e) (ground arith) (items-Glob p s (ground arith))
    | inr m ↦ same (ground arith) (ground arith) (ground arith) (items-Glob p s (ground arith))
  ]
]

pub match_path-items : (p s : Str) → (match_path s (some (items p)) ≡ true) ↔ Glob p s
unfolding match_path
match_path-items p s = (items-Glob p s, Glob-items)

-- A registered pattern always compiles, and the compiled pattern matches exactly the paths that
-- the wildcard pattern stands for: `*` for any text within a line, `?` for one character of it,
-- and every other character, regular-expression syntax included, for itself in either case.
pub match_path_iff :
    (pattern path : Str)
    → (r : Regex) × (wildcard_to_regex pattern ≡ some r)
      × ((match_path path (some r) ≡ true) ↔ Glob pattern path)
match_path_iff pattern path =
    (items pattern, wildcard_to_regex-items pattern, match_path-items pattern path)
