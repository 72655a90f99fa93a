-- ===== src/Text/Trim.antt =====
-- The laws of `trim`.
use ai_agent_boilerplate.Prelude.{
  ℕ, ◌≤◌, ◌≡◌, refl, ap, ◌∙◌, inl, inr, true, false, ◌&&◌, [], ◌∷◌, ◌++◌, arith, if◌then◌else◌,
  Bool-cases, length, all,
}
use ai_agent_boilerplate.Text.{Text, is_whitespace, is_empty, trim_start, trim_end, trim}

trim_end_idem : (s : Text) → trim_end (trim_end s) ≡ trim_end s
unfolding trim_end
trim_end_idem [] = refl
trim_end_idem (c ∷ s) = ground (arith, trim_end_idem s)

-- What `trim_start` returns is empty or starts with a character that is not white space.
data StartsClean : Text → Type 0 where
  nothing : StartsClean []
  clean : {c : ℕ} {s : Text} → is_whitespace c ≡ false → StartsClean (c ∷ s)

trim_start-StartsClean : (s : Text) → StartsClean (trim_start s)
unfolding trim_start
trim_start-StartsClean [] = nothing
trim_start-StartsClean (c ∷ s) = elim (Bool-cases (is_whitespace c)) [
  | inl w ↦ rw w (trim_start-StartsClean s)
  | inr n ↦ rw n (clean n)
]

trim_start-trim_end : {s : Text} → StartsClean s → trim_start (trim_end s) ≡ trim_end s
unfolding trim_start trim_end
trim_start-trim_end nothing = refl
trim_start-trim_end (clean {c} {s} n) = ground arith

-- Trimming twice is trimming once.
pub trim_idem : (s : Text) → trim (trim s) ≡ trim s
unfolding trim
trim_idem s =
    ap trim_end (trim_start-trim_end (trim_start-StartsClean s)) ∙ trim_end_idem (trim_start s)

length-trim_start : (s : Text) → length (trim_start s) ≤ length s
unfolding trim_start
length-trim_start [] = omega arith
length-trim_start (c ∷ s) = ground (arith, length-trim_start s)

length-trim_end : (s : Text) → length (trim_end s) ≤ length s
unfolding trim_end
length-trim_end [] = omega arith
length-trim_end (c ∷ s) = ground (arith, length-trim_end s)

pub length-trim : (s : Text) → length (trim s) ≤ length s
unfolding trim
length-trim s = omega (arith, length-trim_start s, length-trim_end (trim_start s))

all_white_trim_start : (s : Text) → all is_whitespace s ≡ true → trim_start s ≡ []
unfolding trim_start
all_white_trim_start [] h = refl
all_white_trim_start (c ∷ s) h = ground (arith, all_white_trim_start s)

-- A text of white space alone is trimmed to nothing.
pub trim-all_white : (s : Text) → all is_whitespace s ≡ true → trim s ≡ []
unfolding trim trim_end
trim-all_white s h = rw (all_white_trim_start s h)

-- The white space that `trim_start` drops.
leading : Text → Text
leading [] = []
leading (c ∷ s) = let rest = leading s in if is_whitespace c then c ∷ rest else []

-- The white space that `trim_end` drops.
trailing : Text → Text
trailing [] = []
trailing (c ∷ s) =
    let rest = trailing s in if is_whitespace c && is_empty (trim_end s) then c ∷ s else rest

leading_split :
    (s : Text) → (s ≡ leading s ++ trim_start s) × (all is_whitespace (leading s) ≡ true)
unfolding leading trim_start
leading_split [] = (refl, refl)
leading_split (c ∷ s) = ground (arith, leading_split s)

empty_trim_end : (s : Text) → is_empty (trim_end s) ≡ true → all is_whitespace s ≡ true
unfolding trim_end
empty_trim_end [] h = refl
empty_trim_end (c ∷ s) h = ground (arith, empty_trim_end s)

trailing_split :
    (s : Text) → (s ≡ trim_end s ++ trailing s) × (all is_whitespace (trailing s) ≡ true)
unfolding trailing trim_end
trailing_split [] = (refl, refl)
trailing_split (c ∷ s) = ground (arith, trailing_split s, empty_trim_end s)

-- `trim` drops white space at the two ends and nothing else.
pub trim_split :
    (s : Text)
    → (before : Text) × (after : Text) × (s ≡ before ++ (trim s ++ after))
      × (all is_whitespace before ≡ true)
      × (all is_whitespace after ≡ true)
unfolding trim
trim_split s = (
  leading s,
  trailing (trim_start s),
  (leading_split s).0 ∙ ap (λ t. leading s ++ t) (trailing_split (trim_start s)).0,
  (leading_split s).1,
  (trailing_split (trim_start s)).1,
)
