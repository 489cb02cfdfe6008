-- ===== src/Common/Text.antt =====
-- `std::string` as the list of its bytes.
use Prim.Native.Nat.{ℕ, zero, suc}
use Prim.Native.Char.{code}
use Prim.Native.String.{String}
use mathlib.Core.Path.{◌≡◌, refl, ap}
use mathlib.Core.Logic.{◌≢◌, ◌↔◌}
use mathlib.Core.Bool.{Bool, true, false, ◌&&◌}
use mathlib.Core.Option
use mathlib.Core.Option.{Option, none, some}
use mathlib.Core.List.{List, [], ◌∷◌, ◌++◌}
use native.Mathlib.Omega.{arith}
use uni_serve_libhttp.Common.Tests.{◌==◌, if◌then◌else◌}
use uni_serve_libhttp.Common.Lists.{take, drop, length, All}

abbrev pub Str : Type 0
Str = List ℕ

-- A string literal of the source, which is ASCII throughout.
abbrev pub bytes : String → Str
bytes String.[] = []
bytes (String.◌∷◌ c s) = code c ∷ bytes s

abbrev pub empty : Str → Bool
empty [] = true
empty (c ∷ s) = false

-- `operator==`
unfoldable pub str_eq : Str → Str → Bool
str_eq [] [] = true
str_eq [] (d ∷ t) = false
str_eq (c ∷ s) [] = false
str_eq (c ∷ s) (d ∷ t) = c == d && str_eq s t

pub str_eq_iff : (s t : Str) → (str_eq s t ≡ true) ↔ (s ≡ t)
unfolding str_eq
str_eq_iff [] [] = ground arith
str_eq_iff [] (d ∷ t) = ground arith
str_eq_iff (c ∷ s) [] = ground arith
str_eq_iff (c ∷ s) (d ∷ t) = ground (arith, str_eq_iff s t)

pub str_eq_self : (s : Str) → str_eq s s ≡ true
str_eq_self s = (str_eq_iff s s).1 refl

-- `s.find(c)`: the position of the first `c`; `none` is `npos`.
unfoldable pub find : ℕ → Str → Option ℕ
find c [] = none
find c (x ∷ s) = if x == c then some 0 else Option.map suc (find c s)

-- No byte of the text is `c`.
abbrev pub Lacks : ℕ → Str → Type 0
Lacks c = All (λ x. x ≢ c)

-- `find` fails only on a text without `c`.
pub find-none : (c : ℕ) (s : Str) → find c s ≡ none → Lacks c s
unfolding find
find-none c [] e = tt
find-none c (x ∷ s) e = ground (arith, find-none c s)

pub Lacks-find : (c : ℕ) (s : Str) → Lacks c s → find c s ≡ none
unfolding find
Lacks-find c [] h = refl
Lacks-find c (x ∷ s) (p, h) = ground (arith, Lacks-find c s h)

-- Otherwise the text splits there, and no `c` stands before.
pub find-some :
    (c : ℕ) (s : Str) (i : ℕ)
    → find c s ≡ some i
    → (s ≡ take i s ++ (c ∷ drop (suc i) s)) × Lacks c (take i s)
unfolding find
find-some c [] i e = cc
find-some c (x ∷ s) zero e = ground arith
find-some c (x ∷ s) (suc i) e = ground (arith, find-some c s i)

pub find-append : (c : ℕ) (p s : Str) → Lacks c p → find c (p ++ (c ∷ s)) ≡ some (length p)
unfolding find
find-append c [] s h = ground arith
find-append c (x ∷ p) s (q, h) = ground (arith, find-append c p s h)

pub take-length-append {ℓ} : {A : Type ℓ} (p s : List A) → take (length p) (p ++ s) ≡ p
take-length-append [] s = refl
take-length-append (x ∷ p) s = ap (◌∷◌ x) (take-length-append p s)

pub drop-length-append {ℓ} :
    {A : Type ℓ} (p : List A) (c : A) (s : List A) → drop (suc (length p)) (p ++ (c ∷ s)) ≡ s
drop-length-append [] c s = refl
drop-length-append (x ∷ p) c s = drop-length-append p c s
