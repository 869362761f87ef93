-- ===== src/Prelude/Stoi.antt =====
-- `std::stoi` and the conversions between `int` and `unsigned int`.
use Prim.Native.Nat.{ℕ, zero, suc, ◌+◌, ◌-◌, ◌*◌, ◌%◌, ◌^◌, ◌<◌}
use mathlib.Core.Path.{◌≡◌, refl, ap, ◌∙◌}
use mathlib.Core.Logic.{◌≢◌}
use mathlib.Core.Bool.{Bool, true, false, ◌&&◌, ◌||◌}
use mathlib.Core.Option
use mathlib.Core.Option.{Option, none, some}
use mathlib.Core.List.{[], ◌∷◌, foldl}
use native.Mathlib.Omega.{arith}
use multithreaded_network_jo.Prelude.Conditions.{ltb, leb, ◌==◌, if◌then◌else◌}
use multithreaded_network_jo.Prelude.Lists.{All}
use multithreaded_network_jo.Prelude.Text.{Bytes}
use multithreaded_network_jo.Prelude.Outcomes.{Outcome, ok, fault, invalid_argument, out_of_range}
use multithreaded_network_jo.Prelude.Decimal.{
  value, IsDigit, to_string, value-to_string, to_string-All, to_string-ne-nil,
}
use multithreaded_network_jo.Prelude.Int.{ℤ, pos, negsuc}

abbrev is_digit : ℕ → Bool
is_digit c = leb b'0' c && leb c b'9'

-- `isspace`
abbrev is_space : ℕ → Bool
is_space c = c == b' ' || (leb 9 c && leb c 13)

skip_spaces : Bytes → Bytes
skip_spaces [] = []
skip_spaces (c ∷ s) = let rest = skip_spaces s in if is_space c then rest else c ∷ s

-- The number that the digits at the front spell, behind the number read so far.
read_digits : ℕ → Bytes → ℕ
read_digits n [] = n
read_digits n (c ∷ s) = elim (is_digit c) [ true ↦ read_digits (n * 10 + (c - b'0')) s | false ↦ n ]

magnitude : Bytes → Option ℕ
magnitude [] = none
magnitude (c ∷ s) = if is_digit c then some (read_digits 0 (c ∷ s)) else none

negate : ℕ → ℤ
negate zero = pos 0
negate (suc n) = negsuc n

signed : Bytes → Option ℤ
signed [] = none
signed (c ∷ s) =
    if c == b'-'
    then Option.map negate (magnitude s)
    else if c == b'+'
    then Option.map pos (magnitude s)
    else Option.map pos (magnitude (c ∷ s))

in_int_range : ℤ → Bool
in_int_range (pos n) = ltb n (2 ^ 31)
in_int_range (negsuc n) = ltb n (2 ^ 31)

-- It throws `invalid_argument` where no number stands, and `out_of_range` past an `int`.
unfoldable pub stoi : Bytes → Outcome ℤ
unfolding skip_spaces read_digits magnitude negate signed in_int_range
stoi s = elim (signed (skip_spaces s)) [
  | none ↦ fault invalid_argument
  | some z ↦ if in_int_range z then ok z else fault out_of_range
]

-- The conversion of an `int` to `unsigned int`, and of an `unsigned int` to `int`.
abbrev pub to_unsigned : ℤ → ℕ
to_unsigned (pos n) = n % 2 ^ 32
to_unsigned (negsuc n) = (2 ^ 32 - 1 - n) % 2 ^ 32

abbrev pub to_int : ℕ → ℤ
to_int n = if ltb n (2 ^ 31) then pos n else negsuc (2 ^ 32 - 1 - n)

read_digits-foldl :
    (n : ℕ) (s : Bytes) → All IsDigit s → read_digits n s ≡ foldl (λ m c. m * 10 + (c - b'0')) n s
unfolding read_digits
read_digits-foldl n [] h = refl
read_digits-foldl n (c ∷ s) h = ground (arith, read_digits-foldl (n * 10 + (c - b'0')) s h.1)

stoi-digits : (s : Bytes) → s ≢ [] → All IsDigit s → value s < 2 ^ 31 → stoi s ≡ ok (pos (value s))
unfolding stoi
stoi-digits [] ne h small = absurd (ne refl)
stoi-digits (c ∷ s) ne h small = ground (arith, read_digits-foldl 0 (c ∷ s) h)

-- `std::stoi` reads every non-negative `int` back from its print.
pub stoi-to_string : (n : ℕ) → n < 2 ^ 31 → stoi (to_string n) ≡ ok (pos n)
stoi-to_string n small =
    let e = value-to_string n in
    stoi-digits (to_string n) (to_string-ne-nil n) (to_string-All n) (rw e small)
    ∙ ap (λ m. ok (pos m)) e
