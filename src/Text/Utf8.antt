-- ===== src/Text/Utf8.antt =====
-- `str::as_bytes`: the bytes of a text in UTF-8.
use ai_agent_boilerplate.Prelude.{
  ℕ, ◌+◌, ◌/◌, ◌%◌, ◌≡◌, refl, ap, inl, inr, true, false, List, [], ◌∷◌, ◌++◌, arith, ltb,
  if◌then◌else◌, Bool-cases, length, all, All,
}
use ai_agent_boilerplate.Text.{Text, byte_len}

abbrev continuation : ℕ → ℕ
continuation n = 0x80 + n % 64

-- One scalar value.
abbrev encode_char : ℕ → List ℕ
encode_char c =
    if ltb c 0x80
    then c ∷ []
    else if ltb c 0x800
    then (0xc0 + c / 64) ∷ continuation c ∷ []
    else if ltb c 0x10000
    then (0xe0 + c / 4096) ∷ continuation (c / 64) ∷ continuation c ∷ []
    else (0xf0 + c / 262144) ∷ continuation (c / 4096) ∷ continuation (c / 64) ∷ continuation c ∷ []

unfoldable pub as_bytes : Text → List ℕ
as_bytes [] = []
as_bytes (c ∷ s) = encode_char c ++ as_bytes s

-- `len` counts the bytes.
length-as_bytes : (s : Text) → length (as_bytes s) ≡ byte_len s
unfolding as_bytes byte_len
length-as_bytes [] = refl
length-as_bytes (c ∷ s) = ground (arith, length-as_bytes s)

abbrev pub IsAscii : List ℕ → Type 0
IsAscii bytes = All (λ c. ltb c 0x80 ≡ true) bytes

pub all-IsAscii : (bytes : List ℕ) → all (λ c. ltb c 0x80) bytes ≡ true → IsAscii bytes
all-IsAscii [] h = tt
all-IsAscii (c ∷ bytes) h = (ground arith, all-IsAscii bytes (ground arith))

-- An ASCII text is its own bytes.
pub as_bytes_ascii : (s : Text) → IsAscii s → as_bytes s ≡ s
unfolding as_bytes
as_bytes_ascii [] h = refl
as_bytes_ascii (c ∷ s) h = rw h.0 (ap (◌∷◌ c) (as_bytes_ascii s h.1))

-- The lead byte of a longer sequence is not ASCII.
long_lead : (c : ℕ) (rest : List ℕ) → ltb c 0x80 ≡ false → IsAscii (encode_char c ++ rest) → ⊥
long_lead c rest more h = elim (Bool-cases (ltb c 0x800)) [
  | inl two ↦ let lead = rw (more, two) at h in ground (arith, lead.0)
  | inr longer ↦ elim (Bool-cases (ltb c 0x10000)) [
    | inl three ↦ let lead = rw (more, longer, three) at h in ground (arith, lead.0)
    | inr four ↦ let lead = rw (more, longer, four) at h in ground (arith, lead.0)
  ]
]

-- And a text with ASCII bytes is those bytes.
pub ascii_bytes : (s : Text) → IsAscii (as_bytes s) → s ≡ as_bytes s
unfolding as_bytes
ascii_bytes [] h = refl
ascii_bytes (c ∷ s) h = elim (Bool-cases (ltb c 0x80)) [
  | inl one ↦ rw one (ap (◌∷◌ c) (ascii_bytes s (rw one at h).1))
  | inr more ↦ absurd (long_lead c (as_bytes s) more h)
]
