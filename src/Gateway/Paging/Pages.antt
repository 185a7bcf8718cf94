-- ===== src/Gateway/Paging/Pages.antt =====
-- Which items a page holds, and when the computation of its start overflows.
use adaptive_api_routing_gat.Base.{
  ℕ, zero, suc, ltb, ◌∷◌, sym, ◌+◌, ◌-◌, ◌*◌, ◌%◌, ◌^◌, ◌≤◌, ◌<◌, ◌≡◌, refl, ap, ◌∙◌, true, List,
  [], length, take, drop, length-drop, drop_of_length-le, leb, if◌then◌else◌, arith, Bool-cases,
  inl, inr,
}
use adaptive_api_routing_gat.Base.Int.{ℤ, pos, ◌+ℤ◌, ◌-ℤ◌, ◌*ℤ◌, ltb_ℤ, wrap, max_int}
use adaptive_api_routing_gat.Gateway.Paging.{
  page, panic, paginate, from_start, slice, start_of, end_of, size_or_default,
}

mul_pos : (a b : ℕ) → pos a *ℤ pos b ≡ pos (a * b)
unfolding ◌*ℤ◌
mul_pos a b = grind arith

pred_pos : (p : ℕ) → p < max_int → wrap (pos (p + 1) -ℤ pos 1) ≡ pos p
unfolding ◌-ℤ◌ wrap
pred_pos p h = ground arith

wrap_pos : (n : ℕ) → n ≤ max_int → wrap (pos n) ≡ pos n
unfolding wrap
wrap_pos n h = ground arith

add_pos : (a b : ℕ) → a + b ≤ max_int → wrap (pos a +ℤ pos b) ≡ pos (a + b)
unfolding ◌+ℤ◌ wrap
add_pos a b h = ground arith

wrap_overflow : (n : ℕ) → 2 ^ 63 ≤ n % 2 ^ 64 → ltb_ℤ (wrap (pos n)) (pos 0) ≡ true
unfolding wrap
wrap_overflow n h = ground arith

le-mul : (p size : ℕ) → 1 ≤ size → p ≤ p * size
le-mul p size h = grind arith

start_of-pos :
    (p size : ℕ) → p < max_int → start_of (pos (p + 1)) (pos size) ≡ wrap (pos (p * size))
unfolding start_of
start_of-pos p size h =
    let first : (if ltb_ℤ (pos (p + 1)) (pos 1) then pos 1 else pos (p + 1)) ≡ pos (p + 1) =
      ground arith in
    rw (first, pred_pos p h, mul_pos p size)

take_all {ℓ} : {A : Type ℓ} (n : ℕ) (xs : List A) → length xs ≤ n → take n xs ≡ xs
take_all zero [] h = refl
take_all zero (x ∷ xs) h = absurd (omega arith)
take_all (suc n) [] h = refl
take_all (suc n) (x ∷ xs) h = ap (◌∷◌ x) (take_all n xs (omega arith))

end_of-pos :
    (total start size : ℕ)
    → start + size ≤ max_int
    → end_of (pos total) (pos start) (pos size)
      ≡ pos (if ltb total (start + size) then total else start + size)
unfolding end_of
end_of-pos total start size h = rw (add_pos start size h) (ground arith)

take-nil : {A : Type 0} (n : ℕ) → take {A = A} n [] ≡ []
take-nil zero = refl
take-nil (suc n) = refl

module _ {A : Type 0} (list : List A) where
  -- Taking up to the end of the list or `size` items is the same behind `start`.
  take_to_end :
      (start size : ℕ)
      → take
          ((if ltb (length list) (start + size) then length list else start + size) - start)
          (drop start list)
        ≡ take size (drop start list)
  take_to_end start size = elim (Bool-cases (ltb (length list) (start + size))) [
    | inl short ↦
        let rest = drop start list in
        rw short (
          take_all (length list - start) rest (omega (arith, length-drop start list))
          ∙ sym (take_all size rest (ground (arith, length-drop start list))))
    | inr long ↦ rw long (ap (λ n. take n (drop start list)) (omega arith))
  ]

  slice-pos :
      (start end : ℕ)
      → start ≤ end
      → slice list (pos start) (pos end) ≡ page (take (end - start) (drop start list)) (length list)
  unfolding slice
  slice-pos start end h = ground arith

  from_start-in_range :
      (start size : ℕ)
      → start + size ≤ max_int
      → from_start list (pos size) (pos start) ≡ page (take size (drop start list)) (length list)
  unfolding from_start
  from_start-in_range start size h = elim (Bool-cases (leb (length list) start)) [
    | inl past ↦ ground (arith, drop_of_length-le start list (ground arith), take-nil {A = A} size)
    | inr within ↦
        let end = if ltb (length list) (start + size) then length list else start + size in
        ground (
          arith,
          end_of-pos (length list) start size h,
          slice-pos start end (ground arith),
          take_to_end start size,
        )
  ]

  from_start-negative :
      (size start : ℤ) → ltb_ℤ start (pos 0) ≡ true → from_start list size start ≡ panic
  unfolding from_start slice
  from_start-negative size start h = ground arith

  -- Page number `p + 1` of `size` items each is what lies behind the first `p * size` items, up
  -- to `size` of them, with the total of all items, as long as its end is within an `int`.
  pub paginate-page :
      (p size : ℕ)
      → 1 ≤ size
      → p * size + size ≤ max_int
      → paginate list (pos (p + 1)) (pos size)
        ≡ page (take size (drop (p * size) list)) (length list)
  unfolding paginate
  paginate-page p size one fits =
      let given : size_or_default (pos 20) (pos size) ≡ pos size = ground arith in
      rw
        (
          given,
          start_of-pos p size (omega (arith, le-mul p size one)),
          wrap_pos (p * size) (omega arith),
        )
        (from_start-in_range (p * size) size fits)

  -- Where the start of a page that an `int` can number, modulo 2 ^ 64, has its top bit set,
  -- `paginate` slices from a negative index and panics, whatever the list.
  pub paginate-overflow :
      (p size : ℕ)
      → 1 ≤ size
      → p < max_int
      → 2 ^ 63 ≤ (p * size) % 2 ^ 64
      → paginate list (pos (p + 1)) (pos size) ≡ panic
  unfolding paginate
  paginate-overflow p size one fits over =
      let given : size_or_default (pos 20) (pos size) ≡ pos size = ground arith in
      rw (given, start_of-pos p size fits)
        (from_start-negative (pos size) (wrap (pos (p * size))) (wrap_overflow (p * size) over))
