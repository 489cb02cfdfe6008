-- ===== src/HttpServer/Query/Laws.antt =====
-- What a lookup in the parsed query finds.
use mathlib.Core.List.{foldl, append-nil, append_assoc}
use uni_serve_libhttp.Common.{
  ℕ, ◌≡◌, refl, sym, ap, ◌∙◌, subst, ◌≢◌, ◌↔◌, ◌⊎◌, inl, inr, List, [], ◌∷◌, ◌++◌, none, some,
  arith, map, All, All-append, Str, Lacks, lookup, insert, IsDict, Lacks-find, find-append,
  take-length-append, drop-length-append, Misses, str_eq_iff,
}
use uni_serve_libhttp.HttpServer.Split.{IsSplit, join, split_on, split-eq, split_on-join}
use uni_serve_libhttp.HttpServer.Query.{Params, parse_pair, parse_query_params, split_target}
use uni_serve_libhttp.HttpServer.Query.Pairs.{
  IsPair, Silent, lookup-parse_pair, pair_unique, split_pair, key_value,
}

-- The last piece with the key gives it the value.
pub data IsLast (k v : Str) : List Str → Type 0 where
  last : {p : Str} {ps : List Str} → IsPair p k v → All (Silent k) ps → IsLast k v (p ∷ ps)
  later : {p : Str} {ps : List Str} → IsLast k v ps → IsLast k v (p ∷ ps)

foldl-Silent :
    (k : Str) (ps : List Str) (m : Params)
    → All (Silent k) ps
    → lookup k (foldl (parse_pair split_on) m ps) ≡ lookup k m
foldl-Silent k [] m h = refl
foldl-Silent k (p ∷ ps) m (s, h) = elim (lookup-parse_pair k p m) [
  | inl (v, g, e) ↦ absurd (s v g)
  | inr (g, e) ↦ foldl-Silent k ps (parse_pair split_on m p) h ∙ e
]

foldl-IsLast :
    (k v : Str) (ps : List Str) (m : Params)
    → IsLast k v ps
    → lookup k (foldl (parse_pair split_on) m ps) ≡ some v
foldl-IsLast k v [] m h = elim h [ ]
foldl-IsLast k v (p ∷ ps) m (last g h) = elim (lookup-parse_pair k p m) [
  | inl (u, f, e) ↦
      foldl-Silent k ps (parse_pair split_on m p) h ∙ (e ∙ ap some (pair_unique p k k u v f g).1)
  | inr (s, e) ↦ absurd (s v g)
]
foldl-IsLast k v (p ∷ ps) m (later h) = foldl-IsLast k v ps (parse_pair split_on m p) h

foldl-cases :
    (k : Str) (ps : List Str) (m : Params) → ((v : Str) × IsLast k v ps) ⊎ All (Silent k) ps
foldl-cases k [] m = inr tt
foldl-cases k (p ∷ ps) m = elim (foldl-cases k ps m) [
  | inl (v, h) ↦ inl (v, later h)
  | inr h ↦ elim (lookup-parse_pair k p m) [
    | inl (v, g, e) ↦ inl (v, last g h)
    | inr (s, e) ↦ inr (s, h)
  ]
]

none-ne-some : {v : Str} → none ≡ some v → ⊥
none-ne-some e = cc

foldl_iff :
    (k v : Str) (ps : List Str)
    → (lookup k (foldl (parse_pair split_on) [] ps) ≡ some v) ↔ IsLast k v ps
unfolding lookup
foldl_iff k v ps = (to, foldl-IsLast k v ps [])
  where
    to : lookup k (foldl (parse_pair split_on) [] ps) ≡ some v → IsLast k v ps
    to e = elim (foldl-cases k ps []) [
      | inl (u, h) ↦
          let same = sym (foldl-IsLast k u ps [] h) ∙ e in
          subst (λ x. IsLast k x ps) (ground arith) h
      | inr h ↦ absurd (none-ne-some (sym (foldl-Silent k ps [] h) ∙ e))
    ]

fold_of_parse :
    (q : Str)
    → q ≢ []
    → parse_query_params split_on q ≡ foldl (parse_pair split_on) [] (split_on b'&' q)
unfolding parse_query_params
fold_of_parse [] n = absurd (n refl)
fold_of_parse (c ∷ q) n = refl

parse_on_iff :
    (k v : Str) (ps : List Str)
    → All (Lacks b'&') ps
    → join b'&' ps ≢ []
    → (lookup k (parse_query_params split_on (join b'&' ps)) ≡ some v) ↔ IsLast k v ps
parse_on_iff k v ps h n =
    rw (fold_of_parse (join b'&' ps) n, split_on-join b'&' ps (λ e. n (ap (join b'&') e)) h)
      (foldl_iff k v ps)

-- For a query that is not empty, cut into its pieces at every '&', a lookup in the parsed
-- parameters finds a value exactly if the last piece with that key, read as `key` or `key=value`,
-- gives it; pieces with two or more '=' count for no key.
pub parse_query_params_iff :
    {split : ℕ → Str → List Str}
    → IsSplit split
    → (k v : Str) (ps : List Str) → All (Lacks b'&') ps
    → join b'&' ps ≢ []
    → (lookup k (parse_query_params split (join b'&' ps)) ≡ some v) ↔ IsLast k v ps
parse_query_params_iff i k v ps h n = rw (split-eq i) (parse_on_iff k v ps h n)

insert_new : (k v : Str) (m : Params) → Misses k m → insert k v m ≡ m ++ ((k, v) ∷ [])
unfolding insert
insert_new k v [] h = refl
insert_new k v ((j, w) ∷ m) (p, h) = ground (arith, str_eq_iff j k, insert_new k v m h)

Misses-append : (j k v : Str) (m ps : Params) → Misses j (m ++ ((k, v) ∷ ps)) → j ≢ k
Misses-append j k v [] ps (n, h) = λ e. n (sym e)
Misses-append j k v (x ∷ m) ps (n, h) = Misses-append j k v m ps h

IsDict-append : (k v : Str) (m ps : Params) → IsDict (m ++ ((k, v) ∷ ps)) → Misses k m
IsDict-append k v [] ps h = tt
IsDict-append k v ((j, w) ∷ m) ps (n, h) = (Misses-append j k v m ps n, IsDict-append k v m ps h)

-- Text that a key or a value of a query can hold as it stands.
abbrev pub IsPlain : Str × Str → Type 0
IsPlain (k, v) = Lacks b'&' k × Lacks b'&' v × Lacks b'=' k × Lacks b'=' v

abbrev pub print_pair : Str × Str → Str
print_pair (k, v) = k ++ (b'=' ∷ v)

foldl-print_pair :
    (ps m : Params)
    → All IsPlain ps
    → IsDict (m ++ ps)
    → foldl (parse_pair split_on) m (map print_pair ps) ≡ m ++ ps
foldl-print_pair [] m h d = sym (append-nil m)
foldl-print_pair ((k, v) ∷ ps) m ((_, _, p, q), h) d =
    let round =
      split_pair (k ++ (b'=' ∷ v)) k v (key_value refl p q) m
      ∙ insert_new k v m (IsDict-append k v m ps d) in
    ap (λ x. foldl (parse_pair split_on) x (map print_pair ps)) round
    ∙ (foldl-print_pair ps (m ++ ((k, v) ∷ [])) h (rw append_assoc d)
        ∙ append_assoc m ((k, v) ∷ []) ps)

print_pair-Lacks : (ps : Params) → All IsPlain ps → All (Lacks b'&') (map print_pair ps)
print_pair-Lacks [] h = tt
print_pair-Lacks ((k, v) ∷ ps) ((p, q, _, _), h) =
    (All-append (λ x. x ≢ b'&') k (b'=' ∷ v) p (omega arith, q), print_pair-Lacks ps h)

key_ne_nil : (k v : Str) → print_pair (k, v) ≢ []
key_ne_nil [] v = cc
key_ne_nil (c ∷ k) v = cc

join-ne-nil : (c : ℕ) (p : Str) (ps : List Str) → p ≢ [] → join c (p ∷ ps) ≢ []
join-ne-nil c [] ps n = absurd (n refl)
join-ne-nil c (x ∷ p) [] n = cc
join-ne-nil c (x ∷ p) (q ∷ ps) n = cc

parse_on-print :
    (k v : Str) (ps : Params)
    → All IsPlain ((k, v) ∷ ps)
    → IsDict ((k, v) ∷ ps)
    → parse_query_params split_on (join b'&' (map print_pair ((k, v) ∷ ps))) ≡ (k, v) ∷ ps
parse_on-print k v ps h d =
    let texts : List Str = map print_pair ((k, v) ∷ ps) in
    fold_of_parse (join b'&' texts)
      (join-ne-nil b'&' (print_pair (k, v)) (map print_pair ps) (key_ne_nil k v))
    ∙ (ap (foldl (parse_pair split_on) [])
          (split_on-join b'&' texts (λ e. cc) (print_pair-Lacks ((k, v) ∷ ps) h))
        ∙ foldl-print_pair ((k, v) ∷ ps) [] h d)

-- Printing distinct keys with their values as `key=value`, joined by '&', and parsing the text
-- gives the entries back, where no key and no value holds a '&' or a '='.
pub parse-print :
    {split : ℕ → Str → List Str}
    → IsSplit split
    → (ps : Params) → All IsPlain ps
    → IsDict ps
    → parse_query_params split (join b'&' (map print_pair ps)) ≡ ps
unfolding parse_query_params
parse-print i [] h d = refl
parse-print i ((k, v) ∷ ps) h d = rw (split-eq i) (parse_on-print k v ps h d)

-- A path without '?' is split off from the query behind the first '?', however many more '?' the
-- query has; a target that is only such a path has the empty query.
pub split_target-append :
    (path query : Str)
    → Lacks b'?' path
    → (split_target path ≡ (path, [])) × (split_target (path ++ (b'?' ∷ query)) ≡ (path, query))
unfolding split_target
split_target-append path query h = (
  rw (Lacks-find b'?' path h, split_target),
  rw (
    find-append b'?' path query h,
    split_target,
    take-length-append path (b'?' ∷ query),
    drop-length-append path b'?' query,
  ),
)
