-- ===== src/HttpServer/Query/Pairs.antt =====
-- What one piece of a query says, stated without the code's splits.
use uni_serve_libhttp.Common.{
  sym, subst, true, false, Bool-cases, suc, ◌≡◌, refl, ap, ◌∙◌, ◌≢◌, ◌⊎◌, inl, inr, List, [], ◌∷◌,
  ◌++◌, some, arith, Str, Lacks, str_eq, str_eq_iff, find, find-none, find-some, take, drop,
  Option-cases, lookup, insert, lookup-insert,
}
use uni_serve_libhttp.HttpServer.Split.{split_on, split_on_piece, split_on-append, split_on-ne-nil}
use uni_serve_libhttp.HttpServer.Query.{Params, assign, parse_pair}

-- A piece `key`, or `key=value`.
pub data IsPair (p : Str) (k v : Str) : Type 0 where
  key_only : p ≡ k → v ≡ [] → Lacks b'=' k → IsPair p k v
  key_value : p ≡ k ++ (b'=' ∷ v) → Lacks b'=' k → Lacks b'=' v → IsPair p k v

true-ne-false : true ≡ false → ⊥
true-ne-false e = cc

-- The piece gives no value to the key.
abbrev pub Silent : Str → Str → Type 0
Silent k p = (v : Str) → ¬ IsPair p k v

pub split_pair :
    (p k v : Str) → IsPair p k v → (m : Params) → parse_pair split_on m p ≡ insert k v m
unfolding parse_pair assign
split_pair p k v (key_only e f h) m = rw (e, f, split_on_piece b'=' k h, assign)
split_pair p k v (key_value e h g) m =
    rw (e, split_on-append b'=' k v h, split_on_piece b'=' v g, assign)

pair_pieces :
    (p k v : Str)
    → IsPair p k v
    → ((split_on b'=' p ≡ k ∷ []) × (v ≡ [])) ⊎ (split_on b'=' p ≡ k ∷ (v ∷ []))
pair_pieces p k v (key_only e f h) = inl (rw e (split_on_piece b'=' k h), f)
pair_pieces p k v (key_value e h g) =
    inr (rw (e, split_on-append b'=' k v h, split_on_piece b'=' v g))

pub pair_unique : (p k k' v v' : Str) → IsPair p k v → IsPair p k' v' → (k ≡ k') × (v ≡ v')
pair_unique p k k' v v' h h' = ground (arith, pair_pieces p k v h, pair_pieces p k' v' h')

three_pieces :
    (p k v w : Str) (ws : List Str) → split_on b'=' p ≡ k ∷ (v ∷ (w ∷ ws)) → (j : Str) → Silent j p
three_pieces p k v w ws e j u h = ground (arith, pair_pieces p j u h)

-- A piece is a pair, or has two separators and is skipped.
pub data Reading (p : Str) : Type 0 where
  pair : (k v : Str) → IsPair p k v → Reading p
  skipped : ((k : Str) → Silent k p) → ((m : Params) → parse_pair split_on m p ≡ m) → Reading p

after_two : (p k v : Str) (ws : List Str) → ws ≢ [] → split_on b'=' p ≡ k ∷ (v ∷ ws) → Reading p
unfolding parse_pair assign
after_two p k v [] n e = absurd (n refl)
after_two p k v (w ∷ ws) n e = skipped (three_pieces p k v w ws e) (λ m. rw (e, assign))

after_one : (p k r : Str) → p ≡ k ++ (b'=' ∷ r) → Lacks b'=' k → Reading p
after_one p k r e h = elim (Option-cases (find b'=' r)) [
  | inl none_left ↦ pair k r (key_value e h (find-none b'=' r none_left))
  | inr (j, found) ↦
      let (f, g) = find-some b'=' r j found in
      after_two p k (take j r) (split_on b'=' (drop (suc j) r)) (split_on-ne-nil b'=' _) (
        ap (split_on b'=') e
        ∙ (split_on-append b'=' k r h
            ∙ ap (◌∷◌ k)
                (ap (split_on b'=') f ∙ split_on-append b'=' (take j r) (drop (suc j) r) g)))
]

pub reading : (p : Str) → Reading p
reading p = elim (Option-cases (find b'=' p)) [
  | inl none_there ↦ pair p [] (key_only refl refl (find-none b'=' p none_there))
  | inr (i, found) ↦
      let (e, h) = find-some b'=' p i found in after_one p (take i p) (drop (suc i) p) e h
]

-- What one round does to the value of a key.
pub lookup-parse_pair :
    (k p : Str) (m : Params)
    → ((v : Str) × IsPair p k v × (lookup k (parse_pair split_on m p) ≡ some v))
      ⊎ (Silent k p × (lookup k (parse_pair split_on m p) ≡ lookup k m))
lookup-parse_pair k p m = elim (reading p) [
  | pair j v h ↦ elim (Bool-cases (str_eq j k)) [
    | inl same ↦
        let e = (str_eq_iff j k).0 same in
        inl
          (v, subst (λ x. IsPair p x v) e h, rw (split_pair p j v h m, lookup-insert j k v m, same))
    | inr other ↦ inr (
      λ u g.
          let e = (pair_unique p j k v u h g).0 in
          absurd (true-ne-false (sym ((str_eq_iff j k).1 e) ∙ other)),
      rw (split_pair p j v h m, lookup-insert j k v m, other),
    )
  ]
  | skipped silent same ↦ inr (silent k, ap (lookup k) (same m))
]
