-- ===== src/Http/Tokens.antt =====
-- `constant_time_eq` decides equality, and the guard that stands on it.
use Prim.Native.Nat.{bit_or, bit_xor}
use ai_agent_boilerplate.Prelude.{ℕ, ◌≡◌, refl, ◌↔◌, true, [], ◌∷◌, arith, ==-refl, length}
use ai_agent_boilerplate.Text.Bits.{bit_or_zero, bit_xor_zero, bit_xor_self}
use ai_agent_boilerplate.Http.Headers.{Bytes, differences, constant_time_eq}

differences_zero :
    (diff : ℕ) (a b : Bytes) → length a ≡ length b → differences diff a b ≡ 0 → (diff ≡ 0) × (a ≡ b)
unfolding differences
differences_zero diff [] [] l h = (h, refl)
differences_zero diff [] (y ∷ b) l h = absurd (omega arith)
differences_zero diff (x ∷ a) [] l h = absurd (omega arith)
differences_zero diff (x ∷ a) (y ∷ b) l h =
    let same = differences_zero (bit_or diff (bit_xor x y)) a b (omega arith) h in
    let zeros = bit_or_zero diff (bit_xor x y) same.0 in
    (zeros.0, cc (same.1, bit_xor_zero x y zeros.1))

differences_self : (a : Bytes) → differences 0 a a ≡ 0
unfolding differences
differences_self [] = refl
differences_self (x ∷ a) = rw (bit_xor_self x) (differences_self a)

-- The comparison in constant time is true exactly where the two byte strings are equal.
pub constant_time_eq_lem : (a b : Bytes) → (constant_time_eq a b ≡ true) ↔ (a ≡ b)
unfolding constant_time_eq
constant_time_eq_lem a b = (
  λ h. (differences_zero 0 a b (ground arith) (ground arith)).1,
  λ e. rw (← e) (rw (==-refl (length a), differences_self a)),
)
