-- ===== src/Handler/Api/Bodies.antt =====
-- `Decode` of pkg/httpx/httpx.go. `encoding/json` is a parameter: what a decoder makes of the bytes
-- that are left, for a destination of the request's type and for an empty struct.
use adaptive_api_routing_gat.Base.{
  ℕ, ◌^◌, ◌≤◌, ◌≡◌, refl, Text, codes, List, [], ◌∷◌, ◌++◌, length, take, zero, suc, ap, arith,
}
use adaptive_api_routing_gat.Handler.Api.{Decoded, malformed, decoded}

-- What `Decode` of a `json.Decoder` answers: a value and the bytes behind it, `io.EOF`, or the text
-- of another error.
pub data Scan (A : Type 0) : Type 0 where
  value : A → (rest : List ℕ) → Scan A
  end_of_input : Scan A
  bad : Text → Scan A

-- `1<<20`
abbrev pub body_limit : ℕ
body_limit = 2 ^ 20

unfoldable pub decode :
    {A : Type 0}
    → (scan : List ℕ → Scan A) (scan_empty : List ℕ → Scan (Unit {0})) → List ℕ
    → Decoded A
decode scan scan_empty body = elim (scan (take body_limit body)) [
  | bad e ↦ malformed e
  | end_of_input ↦ malformed (codes "EOF")
  | value a rest ↦ elim (scan_empty rest) [
    | end_of_input ↦ decoded a
    | value _ _ ↦ malformed (codes "请求体只能包含单个 JSON 对象")
    | bad _ ↦ malformed (codes "请求体只能包含单个 JSON 对象")
  ]
]

take_append : (n : ℕ) (xs ys : List ℕ) → n ≤ length xs → take n (xs ++ ys) ≡ take n xs
take_append zero xs ys h = refl
take_append (suc n) [] ys h = absurd (omega arith)
take_append (suc n) (x ∷ xs) ys h = ap (◌∷◌ x) (take_append n xs ys (omega arith))

-- What stands behind the first 2 ^ 20 bytes of a body is never read.
decode_limit :
    {A : Type 0} (scan : List ℕ → Scan A) (scan_empty : List ℕ → Scan (Unit {0}))
    (body more : List ℕ)
    → body_limit ≤ length body
    → decode scan scan_empty (body ++ more) ≡ decode scan scan_empty body
unfolding decode
decode_limit scan scan_empty body more h = rw (take_append body_limit body more h, decode) refl
