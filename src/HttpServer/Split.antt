-- ===== src/HttpServer/Split.antt =====
-- `boost::split` with a set of one separator, which `HttpServer::parseQueryParams` calls. Boost is
-- not part of the repository: the function is a parameter, with what its documentation says.
use mathlib.Core.Path.{fun_ext}
use uni_serve_libhttp.Common.{
  ℕ, ◌≡◌, refl, sym, ap, ◌∙◌, ◌≢◌, List, [], ◌∷◌, ◌++◌, arith, ◌==◌, if◌then◌else◌, All, Str, Lacks,
}

-- The pieces with the separator between any two of them.
abbrev pub join : ℕ → List Str → Str
join c [] = []
join c (p ∷ []) = p
join c (p ∷ (q ∷ ps)) = p ++ (c ∷ join c (q ∷ ps))

-- Every separator delimits two pieces (`token_compress_off`), an empty text is one empty piece.
pub record IsSplit (split : ℕ → Str → List Str) : Type 0 where
  pub joined : (c : ℕ) (s : Str) → join c (split c s) ≡ s
  pub pieces : (c : ℕ) (s : Str) → All (Lacks c) (split c s)
  pub some_piece : (c : ℕ) (s : Str) → split c s ≢ []

cons_head : ℕ → List Str → List Str
cons_head x [] = (x ∷ []) ∷ []
cons_head x (p ∷ ps) = (x ∷ p) ∷ ps

-- A function of that kind, to which every other is equal.
unfoldable pub split_on : ℕ → Str → List Str
unfolding cons_head
split_on c [] = [] ∷ []
split_on c (x ∷ s) = if x == c then [] ∷ split_on c s else cons_head x (split_on c s)

pub split_on_piece : (c : ℕ) (p : Str) → Lacks c p → split_on c p ≡ p ∷ []
unfolding split_on
split_on_piece c [] h = refl
split_on_piece c (x ∷ p) (q, h) = ground (arith, split_on_piece c p h)

pub split_on-append : (c : ℕ) (p s : Str) → Lacks c p → split_on c (p ++ (c ∷ s)) ≡ p ∷ split_on c s
unfolding split_on
split_on-append c [] s h = ground arith
split_on-append c (x ∷ p) s (q, h) = ground (arith, split_on-append c p s h)

pub split_on-join :
    (c : ℕ) (ps : List Str) → ps ≢ [] → All (Lacks c) ps → split_on c (join c ps) ≡ ps
split_on-join c [] n h = absurd (n refl)
split_on-join c (p ∷ []) n (h, _) = split_on_piece c p h
split_on-join c (p ∷ (q ∷ ps)) n (h, hs) =
    split_on-append c p (join c (q ∷ ps)) h ∙ ap (◌∷◌ p) (split_on-join c (q ∷ ps) (λ e. cc) hs)

pub split_on-ne-nil : (c : ℕ) (s : Str) → split_on c s ≢ []
unfolding split_on
split_on-ne-nil c [] = cc
split_on-ne-nil c (x ∷ s) = ground arith

pieces_of_split_on : (c : ℕ) (s : Str) → All (Lacks c) (split_on c s)
unfolding split_on
pieces_of_split_on c [] = (tt, tt)
pieces_of_split_on c (x ∷ s) = ground (arith, pieces_of_split_on c s)

join-cons_head : (c x : ℕ) (ps : List Str) → ps ≢ [] → join c (cons_head x ps) ≡ x ∷ join c ps
unfolding cons_head
join-cons_head c x [] n = absurd (n refl)
join-cons_head c x (p ∷ []) n = refl
join-cons_head c x (p ∷ (q ∷ ps)) n = refl

join-nil_cons : (c : ℕ) (ps : List Str) → ps ≢ [] → join c ([] ∷ ps) ≡ c ∷ join c ps
join-nil_cons c [] n = absurd (n refl)
join-nil_cons c (p ∷ ps) n = refl

join-split_on : (c : ℕ) (s : Str) → join c (split_on c s) ≡ s
unfolding split_on
join-split_on c [] = refl
join-split_on c (x ∷ s) = ground (
  arith,
  join-split_on c s,
  join-nil_cons c (split_on c s) (split_on-ne-nil c s),
  join-cons_head c x (split_on c s) (split_on-ne-nil c s),
)

pub split_on-IsSplit : IsSplit split_on
split_on-IsSplit = record {
  joined = join-split_on;
  pieces = pieces_of_split_on;
  some_piece = split_on-ne-nil;
}

-- The documentation leaves no choice.
pub split-eq : {split : ℕ → Str → List Str} → IsSplit split → split ≡ split_on
split-eq {split} h = fun_ext λ c. fun_ext λ s.
    sym (split_on-join c (split c s) (h.some_piece c s) (h.pieces c s))
    ∙ ap (split_on c) (h.joined c s)
