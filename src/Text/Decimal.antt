-- ===== src/Text/Decimal.antt =====
-- Rust's decimal form of an unsigned integer: what `format!` prints, and what `str::parse` reads,
-- with its optional plus sign and its error on overflow.
use ai_agent_boilerplate.Prelude.{
  ℕ, zero, suc, ◌+◌, ◌-◌, ◌*◌, ◌/◌, ◌%◌, Bool, true, false, ◌&&◌, Option, none, some, [], ◌∷◌, ltb,
  leb, ◌==◌, if◌then◌else◌,
}
use ai_agent_boilerplate.Text.{Text}

-- Every round divides by ten, so the number itself is enough rounds.
unfoldable pub print_from : ℕ → ℕ → Text → Text
print_from zero n out = out
print_from (suc rounds) n out = elim (ltb n 10) [
  | true ↦ (b'0' + n) ∷ out
  | false ↦ print_from rounds (n / 10) ((b'0' + n % 10) ∷ out)
]

unfoldable pub decimal : ℕ → Text
unfolding print_from
decimal n = print_from (suc n) n []

abbrev pub is_digit : ℕ → Bool
is_digit c = leb b'0' c && leb c b'9'

-- The digits, one after the other, below `bound`.
unfoldable pub read_digits : ℕ → ℕ → Text → Option ℕ
read_digits bound n [] = some n
read_digits bound n (c ∷ s) =
    let n' = n * 10 + (c - b'0') in
    let rest = read_digits bound n' s in if is_digit c && ltb n' bound then rest else none

unfoldable pub read_nonempty : ℕ → Text → Option ℕ
unfolding read_digits
read_nonempty bound [] = none
read_nonempty bound (c ∷ s) = read_digits bound 0 (c ∷ s)

-- `parse::<uN>()`, where `bound` is 2 ^ N.
unfoldable pub parse_below : ℕ → Text → Option ℕ
unfolding read_nonempty
parse_below bound [] = none
parse_below bound (c ∷ s) = if c == b'+' then read_nonempty bound s else read_nonempty bound (c ∷ s)
