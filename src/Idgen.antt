-- ===== src/Idgen.antt =====
-- pkg/idgen/idgen.go: the increasing short codes, and the hexadecimal identifiers. `random n` is what
-- `crypto/rand` puts into a buffer of `n` bytes. Where `Hex` and `HexN` are called, their result is
-- an argument of the model.
pub mod HexCodes
pub mod ShortCodes
use mathlib.Core.List.{reverse}
use adaptive_api_routing_gat.Base.Int.{ℤ, pos, pos_part, leb_ℤ}
use adaptive_api_routing_gat.Base.{
  ℕ, zero, suc, ◌+◌, ◌-◌, ◌/◌, ◌%◌, ◌^◌, ◌<◌, Bool, List, [], ◌∷◌, Text, codes, leb, ltb, ◌==◌,
  if◌then◌else◌,
}

-- `base62Chars[d]`, for an index that is in range.
unfoldable pub base62_char : ℕ → ℕ
base62_char d = if ltb d 10 then b'0' + d else if ltb d 36 then b'A' + (d - 10) else b'a' + (d - 36)

abbrev pub base62_chars : Text
base62_chars = codes "0123456789ABCDEFGHIJKLMNOPQRSTUVWXYZabcdefghijklmnopqrstuvwxyz"

-- `for n > 0 { buf = append(buf, base62Chars[n%62]); n /= 62 }`, with the rounds that are left.
unfoldable pub digits : ℕ → ℕ → List ℕ
digits zero n = []
digits (suc rounds) n =
    let rest = digits rounds (n / 62) in if n == 0 then [] else base62_char (n % 62) ∷ rest

-- `make([]byte, 0, 11)`: the capacity of the buffer, which bounds the rounds of a uint64.
abbrev pub capacity : ℕ
capacity = 11

-- The code of a value of the counter. The loop that swaps the ends of the buffer is `reverse`.
unfoldable pub code_of : ℕ → Text
code_of n = if n == 0 then base62_char 0 ∷ [] else reverse (digits capacity n)

-- `Short`: the next value of the counter, which is a uint64, and its code.
unfoldable pub short : ℕ → ℕ × Text
short seq = let n = (seq + 1) % 2 ^ 64 in (n, code_of n)

unfoldable pub hex_digit : ℕ → ℕ
hex_digit d = if ltb d 10 then b'0' + d else b'a' + (d - 10)

-- `hex.EncodeToString`
unfoldable pub encode_to_string : List ℕ → Text
encode_to_string [] = []
encode_to_string (b ∷ bs) = hex_digit (b / 16) ∷ hex_digit (b % 16) ∷ encode_to_string bs

unfoldable pub hex : (random : ℕ → List ℕ) → Text
hex random = encode_to_string (random 8)

unfoldable pub hex_n : (random : ℕ → List ℕ) → ℤ → Text
hex_n random n = encode_to_string (random (if leb_ℤ n (pos 0) then 8 else pos_part n))
