-- ===== src/Idgen/HexCodes.antt =====
-- The hexadecimal identifiers: how long they are, and that no two sequences of bytes share one.
use adaptive_api_routing_gat.Base.{
  ℕ, ◌+◌, ◌-◌, ◌*◌, ◌/◌, ◌%◌, ◌<◌, ◌≡◌, refl, ap, ◌∙◌, List, [], ◌∷◌, Text, length, ltb,
  if◌then◌else◌, arith,
}
use adaptive_api_routing_gat.Base.Int.{ℤ, pos, pos_part, leb_ℤ}
use adaptive_api_routing_gat.Idgen.{hex_digit, encode_to_string, hex_n}

AreBytes : List ℕ → Type 0
AreBytes [] = Unit {0}
AreBytes (b ∷ bs) = (b < 256) × AreBytes bs

digit_value : ℕ → ℕ
digit_value c = if ltb c b'a' then c - b'0' else c - b'a' + 10

decode_string : Text → List ℕ
decode_string (c ∷ d ∷ s) = (16 * digit_value c + digit_value d) ∷ decode_string s
decode_string _ = []

digit_value-hex_digit : (d : ℕ) → d < 16 → digit_value (hex_digit d) ≡ d
unfolding digit_value hex_digit
digit_value-hex_digit d h = ground arith

decode_string-encode_to_string :
    (bs : List ℕ) → AreBytes bs → decode_string (encode_to_string bs) ≡ bs
unfolding decode_string encode_to_string AreBytes
decode_string-encode_to_string [] h = refl
decode_string-encode_to_string (b ∷ bs) (h, hs) = ground (
  arith,
  digit_value-hex_digit (b / 16) (omega arith),
  digit_value-hex_digit (b % 16) (omega arith),
  decode_string-encode_to_string bs hs,
)

length-encode_to_string : (bs : List ℕ) → length (encode_to_string bs) ≡ 2 * length bs
unfolding encode_to_string
length-encode_to_string [] = refl
length-encode_to_string (b ∷ bs) = omega (arith, length-encode_to_string bs)

-- Where `random` fills the buffer with bytes, an identifier of `n` bytes, or 8 where `n` is not
-- positive, has twice as many characters, and it spells the bytes that were drawn.
hex_n-decode_string :
    (random : ℕ → List ℕ) (n : ℤ)
    → ((k : ℕ) → (length (random k) ≡ k) × AreBytes (random k))
    → (length (hex_n random n) ≡ 2 * (if leb_ℤ n (pos 0) then 8 else pos_part n))
      × (decode_string (hex_n random n) ≡ random (if leb_ℤ n (pos 0) then 8 else pos_part n))
unfolding hex_n
hex_n-decode_string random n fills =
    let k = if leb_ℤ n (pos 0) then 8 else pos_part n in
    (
      length-encode_to_string (random k) ∙ ap (λ j. 2 * j) (fills k).0,
      decode_string-encode_to_string (random k) (fills k).1,
    )
