-- ===== src/Prelude/Decimal.antt =====
-- Decimal text: `std::to_string` of an unsigned number, and `std::stoi` and `atoi` of a text.
use Prim.Native.Nat.{ℕ, zero, suc, ◌+◌, ◌-◌, ◌*◌, ◌/◌, ◌%◌, ◌<◌, ◌≤◌, ◌^◌}
use mathlib.Core.Path.{◌≡◌, sym, ap, ◌∙◌}
use mathlib.Core.Bool.{true, false}
use mathlib.Core.List.{[], ◌∷◌, ◌++◌, foldl, foldl-append, concat-ne-nil}
use mathlib.Core.Logic.{◌≢◌, inl, inr}
use native.Mathlib.Nat.{pow-suc}
use native.Mathlib.Omega.{arith}
use multithreaded_network_jo.Prelude.Conditions.{ltb, Bool-cases}
use multithreaded_network_jo.Prelude.Lists.{length, length-append, All, All-append}
use multithreaded_network_jo.Prelude.Text.{Bytes}

-- The fuel is the number itself, which its count of digits never exceeds.
digits : ℕ → ℕ → Bytes
digits zero n = (b'0' + n % 10) ∷ []
digits (suc fuel) n = elim (ltb n 10) [
  | true ↦ (b'0' + n % 10) ∷ []
  | false ↦ digits fuel (n / 10) ++ (b'0' + n % 10) ∷ []
]

unfoldable pub to_string : ℕ → Bytes
unfolding digits
to_string n = digits n n

-- The number that digits spell.
abbrev pub value : Bytes → ℕ
value = foldl (λ n c. n * 10 + (c - b'0')) 0

value-append : (xs : Bytes) (c : ℕ) → value (xs ++ c ∷ []) ≡ value xs * 10 + (c - b'0')
value-append xs c = foldl-append (λ n d. n * 10 + (d - b'0')) 0 xs (c ∷ [])

value-digits : (fuel n : ℕ) → n ≤ fuel → value (digits fuel n) ≡ n
unfolding digits
value-digits zero n h = ground arith
value-digits (suc fuel) n h = elim (Bool-cases (ltb n 10)) [
  | inl small ↦ rw (small, digits) (ground arith)
  | inr big ↦
      rw (big, digits)
        (value-append (digits fuel (n / 10)) (b'0' + n % 10)
          ∙ ground (arith, value-digits fuel (n / 10)))
]

pub value-to_string : (n : ℕ) → value (to_string n) ≡ n
unfolding to_string
value-to_string n = value-digits n n (omega arith)

abbrev pub IsDigit : ℕ → Type 0
IsDigit c = (b'0' ≤ c) × (c ≤ b'9')

digits-All : (fuel n : ℕ) → All IsDigit (digits fuel n)
unfolding digits
digits-All zero n = omega arith
digits-All (suc fuel) n = elim (Bool-cases (ltb n 10)) [
  | inl small ↦ rw (small, digits) (omega arith)
  | inr big ↦
      rw (big, digits)
        (All-append IsDigit (digits fuel (n / 10)) _ (digits-All fuel (n / 10)) (omega arith))
]

pub to_string-All : (n : ℕ) → All IsDigit (to_string n)
unfolding to_string
to_string-All n = digits-All n n

digits-ne-nil : (fuel n : ℕ) → digits fuel n ≢ []
unfolding digits
digits-ne-nil zero n e = cc
digits-ne-nil (suc fuel) n e = ground (arith, concat-ne-nil (b'0' + n % 10) (digits fuel (n / 10)))

pub to_string-ne-nil : (n : ℕ) → to_string n ≢ []
unfolding to_string
to_string-ne-nil n = digits-ne-nil n n

-- Two numbers with the same print are the same.
pub to_string-injective : (m n : ℕ) → to_string m ≡ to_string n → m ≡ n
unfolding to_string
to_string-injective m n e =
    sym (value-digits m m (omega arith)) ∙ ap value e ∙ value-digits n n (omega arith)

tenth_lt : (n k : ℕ) → n < 10 ^ suc k → n / 10 < 10 ^ k
tenth_lt n k h = omega (arith, pow-suc 10 k)

length-digits : (fuel n k : ℕ) → n < 10 ^ suc k → length (digits fuel n) ≤ suc k
unfolding digits
length-digits zero n k h = omega arith
length-digits (suc fuel) n zero h = ground arith
length-digits (suc fuel) n (suc k) h = elim (Bool-cases (ltb n 10)) [
  | inl small ↦ rw (small, digits) (omega arith)
  | inr big ↦
      rw (big, digits)
        (omega (
          arith,
          length-append (digits fuel (n / 10)) ((b'0' + n % 10) ∷ []),
          length-digits fuel (n / 10) k (tenth_lt n (suc k) h),
        ))
]

-- The print of a 32-bit number has at most ten digits.
pub length-to_string : (n : ℕ) → n < 2 ^ 32 → length (to_string n) ≤ 10
unfolding to_string
length-to_string n h = length-digits n n 9 (omega arith)
