-- ===== src/Prelude/Memory.antt =====
-- Arrays of bytes: what `read` and `sprintf` write into them, and the C strings in them.
use Prim.Native.Nat.{ℕ, zero, suc, ◌+◌, ◌-◌}
use mathlib.Core.Path.{◌≡◌, refl, sym}
use mathlib.Core.List.{[], ◌∷◌, ◌++◌, append_assoc}
use native.Mathlib.Nat.{zero-add, suc-add}
use native.Mathlib.Omega.{arith}
use multithreaded_network_jo.Prelude.Conditions.{◌==◌, if◌then◌else◌}
use multithreaded_network_jo.Prelude.Lists.{take, drop, length, take-length}
use multithreaded_network_jo.Prelude.Text.{Bytes, Lacks}
use multithreaded_network_jo.Prelude.Outcomes.{Outcome, ok, fault, past_buffer, ◌>>=◌}

-- The bytes that `read` writes into an array, from an offset on.
abbrev pub write_at : ℕ → Bytes → Bytes → Bytes
write_at offset new memory = take offset memory ++ (new ++ drop (offset + length new) memory)

-- A C string in an array: a text that no zero byte of the array ends runs past it.
unfoldable pub c_string : Bytes → Outcome Bytes
c_string [] = fault past_buffer
c_string (c ∷ memory) =
    let rest = c_string memory in if c == 0 then ok [] else (rest >>= λ s. ok (c ∷ s))

-- New arrays have the length that was asked for, and any content.
abbrev pub IsAllocator : (ℕ → Bytes) → Type 0
IsAllocator fresh = (n : ℕ) → length (fresh n) ≡ n

pub c_string-append : (m rest : Bytes) → Lacks 0 m → c_string (m ++ 0 ∷ rest) ≡ ok m
unfolding c_string
c_string-append [] rest h = refl
c_string-append (c ∷ m) rest h = ground (arith, c_string-append m rest h.1)

pub c_string-runs_past : (m : Bytes) → Lacks 0 m → c_string m ≡ fault past_buffer
unfolding c_string
c_string-runs_past [] h = refl
c_string-runs_past (c ∷ m) h = ground (arith, c_string-runs_past m h.1)

pub length-drop : (n : ℕ) (xs : Bytes) → length (drop n xs) ≡ length xs - n
length-drop zero xs = omega arith
length-drop (suc n) [] = omega arith
length-drop (suc n) (x ∷ xs) = omega (arith, length-drop n xs)

pub drop-append : (xs ys : Bytes) (k : ℕ) → drop (length xs + k) (xs ++ ys) ≡ drop k ys
drop-append [] ys k = rw zero-add
drop-append (x ∷ xs) ys k = rw (suc-add (length xs) k) (drop-append xs ys k)

pub drop-drop : (m n : ℕ) (xs : Bytes) → drop m (drop n xs) ≡ drop (n + m) xs
drop-drop m zero xs = rw zero-add
drop-drop zero (suc n) [] = rw (suc-add n zero)
drop-drop (suc m) (suc n) [] = rw (suc-add n (suc m))
drop-drop m (suc n) (x ∷ xs) = rw (suc-add n m) (drop-drop m n xs)

pub eq-nil : (xs : Bytes) → length xs ≡ 0 → xs ≡ []
eq-nil [] e = refl
eq-nil (x ∷ xs) e = absurd (omega arith)

-- The array in the loop: the bytes that have come, and then what it held before.
pub write-next :
    (got new left : Bytes)
    → write_at (length got) new (got ++ left) ≡ (got ++ new) ++ drop (length new) left
write-next got new left =
    rw (take-length got left, drop-append got left (length new)) (sym (append_assoc got new _))

pub c_string-last :
    (m : Bytes) (last : ℕ)
    → Lacks 0 m
    → c_string (m ++ last ∷ []) ≡ (if last == 0 then ok m else fault past_buffer)
unfolding c_string
c_string-last [] last h = ground arith
c_string-last (c ∷ m) last h = ground (arith, c_string-last m last h.1)
