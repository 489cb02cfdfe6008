-- ===== src/Common/Reorder.antt =====
-- A map of the standard library whose entries an iteration meets in another order.
use Prim.Native.Nat.{suc}
use mathlib.Core.Path.{◌≡◌, refl, sym, subst, ap, ◌∙◌}
use mathlib.Core.Logic.{◌≢◌}
use mathlib.Core.Bool.{Bool, true, false, ◌&&◌}
use mathlib.Core.List.Permᴰ
use mathlib.Core.List.{List, ◌∷◌, Permᴰ}
use native.Mathlib.Omega.{arith}
use uni_serve_libhttp.Common.Tests.{if◌then◌else◌}
use uni_serve_libhttp.Common.Lists.{length, All}
use uni_serve_libhttp.Common.Text.{Str, str_eq, str_eq_iff}
use uni_serve_libhttp.Common.Dict.{lookup, insert, erase, Misses, IsDict}

module _ {ℓ κ} {A : Type ℓ} (P : A → Type κ) where
  All-perm : {xs ys : List A} → Permᴰ xs ys → All P xs → All P ys
  All-perm Permᴰ.nil h = h
  All-perm (Permᴰ.cons e d) (p, h) = (subst P (e) p, All-perm d h)
  All-perm (Permᴰ.swap e f) (p, (q, h)) = (subst P (f) q, (subst P (e) p, h))
  All-perm (Permᴰ.trans d d') h = All-perm d' (All-perm d h)

pub length-perm {ℓ} : {A : Type ℓ} {xs ys : List A} → Permᴰ xs ys → length xs ≡ length ys
length-perm Permᴰ.nil = refl
length-perm (Permᴰ.cons e d) = ap suc (length-perm d)
length-perm (Permᴰ.swap e f) = refl
length-perm (Permᴰ.trans d d') = length-perm d ∙ length-perm d'

perm-if {ℓ} :
    {A : Type ℓ} (b : Bool) {x x' y y' : List A}
    → Permᴰ x x'
    → Permᴰ y y'
    → Permᴰ (if b then x else y) (if b then x' else y')
perm-if true d e = d
perm-if false d e = e

module _ {ℓ} {V : Type ℓ} where
  pub Misses-perm : (k : Str) {m m' : List (Str × V)} → Permᴰ m m' → Misses k m → Misses k m'
  Misses-perm k d h = All-perm (λ e. e.0 ≢ k) d h

  pub IsDict-perm : {m m' : List (Str × V)} → Permᴰ m m' → IsDict m → IsDict m'
  IsDict-perm Permᴰ.nil h = h
  IsDict-perm {m} {m'} (Permᴰ.cons {a} {b} {l₁} {l₂} e d) (p, h) =
      subst (λ x. IsDict (x ∷ l₂)) (e) (Misses-perm a.0 d p, IsDict-perm d h)
  IsDict-perm (Permᴰ.swap {a} {b} {a'} {b'} {l} e f) ((n, p), (q, h)) =
      subst (λ x. IsDict (a' ∷ x ∷ l)) (e)
        (subst (λ x. IsDict (x ∷ a ∷ l)) (f) ((λ t. n (sym t), q), (p, h)))
  IsDict-perm (Permᴰ.trans d d') h = IsDict-perm d' (IsDict-perm d h)

  pub lookup-perm :
      (k : Str) {m m' : List (Str × V)} → Permᴰ m m' → IsDict m → lookup k m ≡ lookup k m'
  unfolding lookup
  lookup-perm k Permᴰ.nil h = refl
  lookup-perm k (Permᴰ.cons {a} {b} {l₁} {l₂} e d) (p, h) =
      subst (λ x. lookup k (a ∷ l₁) ≡ lookup k (x ∷ l₂)) (e) (ground (arith, lookup-perm k d h))
  lookup-perm k (Permᴰ.swap {a} {b} {a'} {b'} {l} e f) ((n, p), (q, h)) =
      subst (λ x. lookup k (a ∷ b ∷ l) ≡ lookup k (a' ∷ x ∷ l)) (e)
        (subst (λ x. lookup k (a ∷ b ∷ l) ≡ lookup k (x ∷ a ∷ l)) (f)
          (ground (arith, str_eq_iff a.0 k, str_eq_iff b.0 k)))
  lookup-perm k (Permᴰ.trans d d') h = lookup-perm k d h ∙ lookup-perm k d' (IsDict-perm d h)

  -- Two entries with different keys are not both under the key `k`.
  one_of : (k : Str) (a b : Str × V) → b.0 ≢ a.0 → (str_eq a.0 k && str_eq b.0 k) ≡ false
  one_of k a b n = ground (arith, str_eq_iff a.0 k, str_eq_iff b.0 k)

  erase_swapped :
      (k : Str) (a b : Str × V) (l : List (Str × V))
      → b.0 ≢ a.0
      → Permᴰ (erase k (a ∷ b ∷ l)) (erase k (b ∷ a ∷ l))
  unfolding erase
  erase_swapped k a b l n = cases (str_eq a.0 k) (str_eq b.0 k) (one_of k a b n)
    where
      cases :
          (p q : Bool)
          → (p && q) ≡ false
          → Permᴰ
              (if p then b ∷ l else a ∷ (if q then l else b ∷ erase k l))
              (if q then a ∷ l else b ∷ (if p then l else a ∷ erase k l))
      cases true true e = absurd (cc)
      cases true false e = Permᴰ.refl _
      cases false true e = Permᴰ.refl _
      cases false false e = Permᴰ.swap refl refl

  insert_swapped :
      (k : Str) (v : V) (a b : Str × V) (l : List (Str × V))
      → b.0 ≢ a.0
      → Permᴰ (insert k v (a ∷ b ∷ l)) (insert k v (b ∷ a ∷ l))
  unfolding insert
  insert_swapped k v a b l n = cases (str_eq a.0 k) (str_eq b.0 k) (one_of k a b n)
    where
      cases :
          (p q : Bool)
          → (p && q) ≡ false
          → Permᴰ
              (if p then (a.0, v) ∷ b ∷ l else a ∷ (if q then (b.0, v) ∷ l else b ∷ insert k v l))
              (if q then (b.0, v) ∷ a ∷ l else b ∷ (if p then (a.0, v) ∷ l else a ∷ insert k v l))
      cases true true e = absurd (cc)
      cases true false e = Permᴰ.swap refl refl
      cases false true e = Permᴰ.swap refl refl
      cases false false e = Permᴰ.swap refl refl

  pub erase-perm :
      (k : Str) {m m' : List (Str × V)} → Permᴰ m m' → IsDict m → Permᴰ (erase k m) (erase k m')
  unfolding erase
  erase-perm k Permᴰ.nil h = Permᴰ.nil
  erase-perm k (Permᴰ.cons {a} {b} {l₁} {l₂} e d) (p, h) =
      subst (λ x. Permᴰ (erase k (a ∷ l₁)) (erase k (x ∷ l₂))) (e)
        (perm-if (str_eq a.0 k) d (Permᴰ.cons refl (erase-perm k d h)))
  erase-perm k (Permᴰ.swap {a} {b} {a'} {b'} {l} e f) ((n, p), (q, h)) =
      subst (λ x. Permᴰ (erase k (a ∷ b ∷ l)) (erase k (a' ∷ x ∷ l))) (e)
        (subst (λ x. Permᴰ (erase k (a ∷ b ∷ l)) (erase k (x ∷ a ∷ l))) (f)
          (erase_swapped k a b l n))
  erase-perm k (Permᴰ.trans d d') h =
      Permᴰ.trans (erase-perm k d h) (erase-perm k d' (IsDict-perm d h))

  pub insert-perm :
      (k : Str) (v : V) {m m' : List (Str × V)}
      → Permᴰ m m'
      → IsDict m
      → Permᴰ (insert k v m) (insert k v m')
  unfolding insert
  insert-perm k v Permᴰ.nil h = Permᴰ.cons refl Permᴰ.nil
  insert-perm k v (Permᴰ.cons {a} {b} {l₁} {l₂} e d) (p, h) =
      subst (λ x. Permᴰ (insert k v (a ∷ l₁)) (insert k v (x ∷ l₂))) (e)
        (perm-if (str_eq a.0 k) (Permᴰ.cons refl d) (Permᴰ.cons refl (insert-perm k v d h)))
  insert-perm k v (Permᴰ.swap {a} {b} {a'} {b'} {l} e f) ((n, p), (q, h)) =
      subst (λ x. Permᴰ (insert k v (a ∷ b ∷ l)) (insert k v (a' ∷ x ∷ l))) (e)
        (subst (λ x. Permᴰ (insert k v (a ∷ b ∷ l)) (insert k v (x ∷ a ∷ l))) (f)
          (insert_swapped k v a b l n))
  insert-perm k v (Permᴰ.trans d d') h =
      Permᴰ.trans (insert-perm k v d h) (insert-perm k v d' (IsDict-perm d h))
