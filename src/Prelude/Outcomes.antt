-- ===== src/Prelude/Outcomes.antt =====
-- What a step of the program comes to: a result, a wait for another thread, or a fault.
use mathlib.Core.Path.{◌≡◌, refl}

-- Undefined behaviour, or an exception that no handler of the program catches.
pub data Fault : Type 0 where
  empty_front out_of_range invalid_argument endless_loop null_text past_buffer unset_text
        foreign_unlock destroys_used bad_size int_overflow :
      Fault

pub data Outcome {ℓ} (A : Type ℓ) : Type ℓ where
  ok : A → Outcome A
  blocked : Outcome A
  fault : Fault → Outcome A

infixl 5 ◌>>=◌
abbrev pub ◌>>=◌ {ℓ κ} : {A : Type ℓ} {B : Type κ} → Outcome A → (A → Outcome B) → Outcome B
ok a >>= f = f a
blocked >>= f = blocked
fault e >>= f = fault e

-- Inversion of a successful chain.
pub >>=-eq-ok {ℓ κ} :
    {A : Type ℓ} {B : Type κ} (first : Outcome A) (next : A → Outcome B) {result : B}
    → (first >>= next) ≡ ok result
    → (a : A) × (first ≡ ok a) × (next a ≡ ok result)
>>=-eq-ok (ok a) next chain = (a, refl, chain)
>>=-eq-ok blocked next chain = cc
>>=-eq-ok (fault why) next chain = cc
