-- ===== src/Common/Dict.antt =====
-- A map of the standard library (`std::unordered_map`, `std::map`) with text keys, as the list of
-- its entries in the order of their insertion. An iteration of a `std::map` meets them in the order
-- of their keys; the program iterates none.
use Prim.Native.Nat.{suc}
use mathlib.Core.Path.{◌≡◌, refl, subst}
use mathlib.Core.Logic.{◌≢◌}
use mathlib.Core.Option.{Option, none, some}
use mathlib.Core.List.{List, [], ◌∷◌}
use native.Mathlib.Omega.{arith}
use uni_serve_libhttp.Common.Tests.{if◌then◌else◌}
use uni_serve_libhttp.Common.Lists.{length, All}
use uni_serve_libhttp.Common.Text.{Str, str_eq, str_eq_iff}

module _ {ℓ} {V : Type ℓ} where
  -- `m.find(k)`
  unfoldable pub lookup : Str → List (Str × V) → Option V
  lookup k [] = none
  lookup k ((j, v) ∷ m) = if str_eq j k then some v else lookup k m

  -- `m[k] = v`
  unfoldable pub insert : Str → V → List (Str × V) → List (Str × V)
  insert k v [] = (k, v) ∷ []
  insert k v ((j, w) ∷ m) = if str_eq j k then (j, v) ∷ m else (j, w) ∷ insert k v m

  -- `m.erase(k)`
  unfoldable pub erase : Str → List (Str × V) → List (Str × V)
  erase k [] = []
  erase k ((j, w) ∷ m) = if str_eq j k then m else (j, w) ∷ erase k m

  -- No entry has the key.
  abbrev pub Misses : Str → List (Str × V) → Type 0
  Misses k = All (λ e. e.0 ≢ k)

  -- No two entries have one key.
  abbrev pub IsDict : List (Str × V) → Type 0
  IsDict [] = Unit
  IsDict ((k, v) ∷ m) = Misses k m × IsDict m

  pub lookup-insert :
      (k j : Str) (v : V) (m : List (Str × V))
      → lookup j (insert k v m) ≡ (if str_eq k j then some v else lookup j m)
  unfolding lookup insert
  lookup-insert k j v [] = refl
  lookup-insert k j v ((i, w) ∷ m) =
      ground (arith, str_eq_iff k j, str_eq_iff i k, str_eq_iff i j, lookup-insert k j v m)

  pub Misses-lookup : (k : Str) (m : List (Str × V)) → Misses k m → lookup k m ≡ none
  unfolding lookup
  Misses-lookup k [] h = refl
  Misses-lookup k ((j, w) ∷ m) (p, h) = ground (arith, str_eq_iff j k, Misses-lookup k m h)

  pub lookup-Misses : (k : Str) (m : List (Str × V)) → lookup k m ≡ none → Misses k m
  unfolding lookup
  lookup-Misses k [] h = tt
  lookup-Misses k ((j, w) ∷ m) h = ground (arith, str_eq_iff j k, lookup-Misses k m)

  insert-Misses :
      (k j : Str) (v : V) (m : List (Str × V)) → k ≢ j → Misses j m → Misses j (insert k v m)
  unfolding insert
  insert-Misses k j v [] n h = (n, tt)
  insert-Misses k j v ((i, w) ∷ m) n (p, h) = ground (arith, insert-Misses k j v m n h)

  pub insert-IsDict : (k : Str) (v : V) (m : List (Str × V)) → IsDict m → IsDict (insert k v m)
  unfolding insert
  insert-IsDict k v [] h = (tt, tt)
  insert-IsDict k v ((i, w) ∷ m) (p, h) =
      ground
        (arith, str_eq_iff i k, insert-IsDict k v m h, λ (n : k ≢ i). insert-Misses k i v m n p)

  erase-Misses : (k j : Str) (m : List (Str × V)) → Misses j m → Misses j (erase k m)
  unfolding erase
  erase-Misses k j [] h = tt
  erase-Misses k j ((i, w) ∷ m) (p, h) = ground (arith, erase-Misses k j m h)

  pub erase-IsDict : (k : Str) (m : List (Str × V)) → IsDict m → IsDict (erase k m)
  unfolding erase
  erase-IsDict k [] h = tt
  erase-IsDict k ((i, w) ∷ m) (p, h) = ground (arith, erase-IsDict k m h, erase-Misses k i m p)

  pub lookup-erase :
      (k j : Str) (m : List (Str × V))
      → IsDict m
      → lookup j (erase k m) ≡ (if str_eq k j then none else lookup j m)
  unfolding lookup erase
  lookup-erase k j [] h = ground arith
  lookup-erase k j ((i, w) ∷ m) (p, h) = ground (
    arith,
    str_eq_iff k j,
    str_eq_iff i k,
    str_eq_iff i j,
    lookup-erase k j m h,
    λ (e : i ≡ j). Misses-lookup j m (subst (λ x. Misses x m) e p),
  )

  pub length-erase :
      (k : Str) (m : List (Str × V)) (v : V)
      → lookup k m ≡ some v
      → suc (length (erase k m)) ≡ length m
  unfolding lookup erase
  length-erase k [] v e = cc
  length-erase k ((i, w) ∷ m) v e = ground (arith, length-erase k m v)

  pub length-insert_new :
      (k : Str) (v : V) (m : List (Str × V))
      → lookup k m ≡ none
      → length (insert k v m) ≡ suc (length m)
  unfolding lookup insert
  length-insert_new k v [] e = refl
  length-insert_new k v ((i, w) ∷ m) e = ground (arith, length-insert_new k v m)
