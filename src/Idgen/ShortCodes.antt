-- ===== src/Idgen/ShortCodes.antt =====
-- The short codes: what they spell, and that they do not repeat.
use mathlib.Core.List.{reverse, reverse-reverse}
use native.Mathlib.Nat.{pow-suc}
use adaptive_api_routing_gat.Base.{
  ℕ, zero, suc, ◌+◌, ◌-◌, ◌*◌, ◌/◌, ◌%◌, ◌^◌, ◌≤◌, ◌<◌, ◌≡◌, ◌≢◌, refl, sym, ap, ◌∙◌, List, [], ◌∷◌,
  Text, length, length-reverse, ltb, if◌then◌else◌, arith,
}
use adaptive_api_routing_gat.Idgen.{base62_char, base62_chars, digits, code_of, short, capacity}

-- The table of the source is the one that `base62_char` computes.
pub all_chars : ℕ → ℕ → Text
all_chars zero d = []
all_chars (suc k) d = base62_char d ∷ all_chars k (d + 1)

base62_table : all_chars 62 0 ≡ base62_chars
unfolding all_chars base62_char
base62_table = refl

-- The value of a digit character.
unfoldable pub char_value : ℕ → ℕ
char_value c = if ltb c b'A' then c - b'0' else if ltb c b'a' then c - b'A' + 10 else c - b'a' + 36

char_value-base62_char : (d : ℕ) → d < 62 → char_value (base62_char d) ≡ d
unfolding char_value base62_char
char_value-base62_char d h = ground arith

-- The number that a little-endian list of digits spells.
unfoldable pub value : List ℕ → ℕ
value [] = 0
value (c ∷ cs) = char_value c + 62 * value cs

power_step : (k n : ℕ) → n < 62 ^ suc k → n / 62 < 62 ^ k
power_step k n h = let p : n < 62 ^ k * 62 = rw pow-suc at h in omega arith

-- Enough rounds leave nothing of the number.
value-digits : (k n : ℕ) → n < 62 ^ k → value (digits k n) ≡ n
unfolding value digits
value-digits zero n h = omega arith
value-digits (suc k) n h = ground (
  arith,
  value-digits k (n / 62) (power_step k n h),
  char_value-base62_char (n % 62) (omega arith),
)

length-digits-le : (k n : ℕ) → length (digits k n) ≤ k
unfolding digits
length-digits-le zero n = omega arith
length-digits-le (suc k) n = ground (arith, length-digits-le k (n / 62))

-- The number that a code spells, its first character the most significant.
pub code_value : Text → ℕ
code_value s = value (reverse s)

code_of-suc : (n : ℕ) → code_of (suc n) ≡ reverse (digits capacity (suc n))
unfolding code_of
code_of-suc n = ground arith

code_value-code_of : (n : ℕ) → n < 62 ^ capacity → code_value (code_of n) ≡ n
unfolding code_value
code_value-code_of zero h = unfold code_of value char_value base62_char in refl
code_value-code_of (suc n) h = rw (code_of-suc, reverse-reverse) (value-digits capacity (suc n) h)

digits-ne-nil : (k n : ℕ) → 0 < n → 0 < length (digits (suc k) n)
unfolding digits
digits-ne-nil k n h = ground arith

length-code_of : (n : ℕ) → (0 < length (code_of n)) × (length (code_of n) ≤ capacity)
length-code_of zero = unfold code_of in omega arith
length-code_of (suc n) = rw (code_of-suc) (
    omega (
      arith,
      length-reverse (digits capacity (suc n)),
      length-digits-le capacity (suc n),
      digits-ne-nil 10 (suc n) (omega arith),
    ))

-- Every code that `Short` returns spells the new value of the 64-bit counter, and the counter
-- is one more than before, modulo 2 ^ 64.
pub short-value :
    (seq : ℕ) → ((short seq).0 ≡ (seq + 1) % 2 ^ 64) × (code_value (short seq).1 ≡ (short seq).0)
unfolding short
short-value seq = (refl, code_value-code_of ((seq + 1) % 2 ^ 64) (omega arith))

-- A code is never longer than the buffer of 11 bytes that `Short` allocates, and never empty.
pub length-short : (seq : ℕ) → (0 < length (short seq).1) × (length (short seq).1 ≤ capacity)
unfolding short
length-short seq = length-code_of ((seq + 1) % 2 ^ 64)

-- Two calls at different values of the counter, which is below 2 ^ 64, return different codes:
-- codes do not repeat before the 64-bit counter does.
pub short-injective : (a b : ℕ) → a < 2 ^ 64 → b < 2 ^ 64 → a ≢ b → (short a).1 ≢ (short b).1
short-injective a b ha hb apart e =
    let (next_a, value_a) = short-value a in
    let (next_b, value_b) = short-value b in
    let same_next : (a + 1) % 2 ^ 64 ≡ (b + 1) % 2 ^ 64 =
      sym (value_a ∙ next_a) ∙ ap code_value e ∙ value_b ∙ next_b in
    apart (omega arith)
