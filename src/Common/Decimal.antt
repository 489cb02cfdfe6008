-- ===== src/Common/Decimal.antt =====
-- `std::to_string` of an unsigned number.
use Prim.Native.Nat.{ℕ, zero, suc, ◌+◌, ◌-◌, ◌*◌, ◌/◌, ◌%◌, ◌<◌}
use mathlib.Core.Path.{◌≡◌, refl, sym, ap, ◌∙◌}
use mathlib.Core.List.{[], ◌∷◌, ◌++◌}
use native.Mathlib.Omega.{arith}
use uni_serve_libhttp.Common.Tests.{ltb, if◌then◌else◌, Bool-cases}
use uni_serve_libhttp.Common.Text.{Str}
use mathlib.Core.Logic.{inl, inr}

-- The digits, with as many rounds as the number has units at most.
digits_within : ℕ → ℕ → Str
digits_within zero n = []
digits_within (suc fuel) n =
    let front = digits_within fuel (n / 10) in
    if ltb n 10 then (48 + n) ∷ [] else front ++ ((48 + n % 10) ∷ [])

unfoldable pub to_string : ℕ → Str
unfolding digits_within
to_string n = digits_within (suc n) n

-- The number that decimal digits stand for, behind those of `acc`.
value_from : ℕ → Str → ℕ
value_from acc [] = acc
value_from acc (c ∷ s) = value_from (acc * 10 + (c - 48)) s

value_from-append :
    (acc c : ℕ) (s : Str) → value_from acc (s ++ (c ∷ [])) ≡ value_from acc s * 10 + (c - 48)
unfolding value_from
value_from-append acc c [] = refl
value_from-append acc c (d ∷ s) = value_from-append (acc * 10 + (d - 48)) c s

value_from-digits_within : (fuel n : ℕ) → n < fuel → value_from 0 (digits_within fuel n) ≡ n
unfolding value_from digits_within
value_from-digits_within zero n h = absurd (omega arith)
value_from-digits_within (suc fuel) n h = elim (Bool-cases (ltb n 10)) [
  | inl e ↦ rw e (omega arith)
  | inr e ↦ rw e (
      value_from-append 0 (48 + n % 10) (digits_within fuel (n / 10))
      ∙ omega (arith, value_from-digits_within fuel (n / 10) (ground arith)))
]

-- Different numbers have different texts: the digits stand for the number.
pub to_string_inj : (m n : ℕ) → to_string m ≡ to_string n → m ≡ n
unfolding to_string
to_string_inj m n e =
    sym (value_from-digits_within (suc m) m (omega arith))
    ∙ (ap (value_from 0) e ∙ value_from-digits_within (suc n) n (omega arith))
