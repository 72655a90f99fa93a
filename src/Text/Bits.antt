-- ===== src/Text/Bits.antt =====
-- Rust's `^` and `|` on bytes, where one of their results is zero.
use Prim.Native.Nat.{digits, differ, bit_or, bit_xor, bit_or-bitwise, bit_xor-bitwise}
use ai_agent_boilerplate.Prelude.{ℕ, zero, suc, ◌/◌, ◌%◌, ◌≤◌, max, ◌≡◌, refl, sym, ◌∙◌, arith}

differ_zero : (x y : ℕ) → differ x y ≡ 0 → x ≡ y
differ_zero zero y h = sym h
differ_zero (suc x) zero h = h
differ_zero (suc x) (suc y) h = omega (arith, differ_zero x y h)

differ_self : (x : ℕ) → differ x x ≡ 0
differ_self zero = refl
differ_self (suc x) = differ_self x

abbrev xor_digits : ℕ → ℕ → ℕ → ℕ
xor_digits n a b = digits (λ c. c) differ n a b

xor_digits_zero : (n a b : ℕ) → a ≤ n → xor_digits n a b ≡ 0 → a ≡ b
xor_digits_zero zero a b p h = omega arith
xor_digits_zero (suc n) zero b p h = sym h
xor_digits_zero (suc n) (suc a) b p h = omega (
  arith,
  xor_digits_zero n (suc a / 2) (b / 2) (omega arith) (omega arith),
  differ_zero (suc a % 2) (b % 2) (omega arith),
)

xor_digits_self : (n a : ℕ) → a ≤ n → xor_digits n a a ≡ 0
xor_digits_self zero a p = omega arith
xor_digits_self (suc n) zero p = refl
xor_digits_self (suc n) (suc a) p =
    omega (arith, xor_digits_self n (suc a / 2) (omega arith), differ_self (suc a % 2))

pub bit_xor_zero : (a b : ℕ) → bit_xor a b ≡ 0 → a ≡ b
bit_xor_zero a b h = xor_digits_zero a a b (omega arith) (sym (λ i. bit_xor-bitwise a b i) ∙ h)

pub bit_xor_self : (a : ℕ) → bit_xor a a ≡ 0
bit_xor_self a = (λ i. bit_xor-bitwise a a i) ∙ xor_digits_self a a (omega arith)

abbrev or_digits : ℕ → ℕ → ℕ → ℕ
or_digits n a b = digits (λ c. c) max n a b

or_digits_zero : (n a b : ℕ) → a ≤ n → or_digits n a b ≡ 0 → (a ≡ 0) × (b ≡ 0)
or_digits_zero zero a b p h = (omega arith, h)
or_digits_zero (suc n) zero b p h = (refl, h)
or_digits_zero (suc n) (suc a) b p h =
    let half = or_digits_zero n (suc a / 2) (b / 2) (omega arith) (omega arith) in
    (omega (arith, half.0, half.1), omega (arith, half.0, half.1))

pub bit_or_zero : (a b : ℕ) → bit_or a b ≡ 0 → (a ≡ 0) × (b ≡ 0)
bit_or_zero a b h = or_digits_zero a a b (omega arith) (sym (λ i. bit_or-bitwise a b i) ∙ h)
