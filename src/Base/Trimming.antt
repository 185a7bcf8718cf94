-- ===== src/Base/Trimming.antt =====
-- `strings.TrimSpace` leaves nothing to trim.
use Prim.Native.Nat.{◌≤◌}
use mathlib.Core.Path.{◌≡◌, refl, sym, ap, ◌∙◌}
use mathlib.Core.Logic.{inl, inr}
use mathlib.Core.List.{[], ◌∷◌, ◌++◌, reverse, reverse-append, reverse-reverse}
use native.Mathlib.Omega.{arith}
use adaptive_api_routing_gat.Base.Tests.{Bool-cases}
use adaptive_api_routing_gat.Base.Lists.{length}
use adaptive_api_routing_gat.Base.Texts.{Text, is_space, trim_left, trim_space}

length-trim_left-le : (s : Text) → length (trim_left s) ≤ length s
unfolding trim_left
length-trim_left-le [] = omega arith
length-trim_left-le (c ∷ s) = ground (arith, length-trim_left-le s)

trim_left-trim_left : (s : Text) → trim_left (trim_left s) ≡ trim_left s
unfolding trim_left
trim_left-trim_left [] = refl
trim_left-trim_left (c ∷ s) = elim (Bool-cases (is_space c)) [
  | inl e ↦ rw e (trim_left-trim_left s)
  | inr e ↦ rw (e, trim_left) (rw (e, trim_left) refl)
]

-- What is cut is in front.
trim_left-suffix : (s : Text) → (p : Text) × (s ≡ p ++ trim_left s)
unfolding trim_left
trim_left-suffix [] = ([], refl)
trim_left-suffix (c ∷ s) = elim (Bool-cases (is_space c)) [
  | inl e ↦ let (p, q) = trim_left-suffix s in (c ∷ p, rw e (ap (◌∷◌ c) q))
  | inr e ↦ ([], rw e refl)
]

-- A text that starts with no space keeps that when its end is cut.
trim_left-prefix : (w q : Text) → trim_left (w ++ q) ≡ w ++ q → trim_left w ≡ w
unfolding trim_left
trim_left-prefix [] q h = refl
trim_left-prefix (c ∷ w) q h = elim (Bool-cases (is_space c)) [
  | inr e ↦ rw e refl
  | inl e ↦
      let shorter = length-trim_left-le (w ++ q) in
      let same_length = ap length (rw e at h) in absurd (omega arith)
]

pub trim_space-trim_space : (s : Text) → trim_space (trim_space s) ≡ trim_space s
unfolding trim_space
trim_space-trim_space s =
    let u = trim_left s in
    let t = trim_left (reverse u) in
    let (p, cut) = trim_left-suffix (reverse u) in
    let whole : u ≡ reverse t ++ reverse p =
      sym (reverse-reverse u) ∙ ap reverse cut ∙ reverse-append p t in
    let kept : trim_left (reverse t) ≡ reverse t =
      trim_left-prefix (reverse t) (reverse p)
        (ap trim_left (sym whole) ∙ trim_left-trim_left s ∙ whole) in
    ap (λ x. reverse (trim_left (reverse x))) kept
    ∙ ap (λ x. reverse (trim_left x)) (reverse-reverse t)
    ∙ ap reverse (trim_left-trim_left (reverse u))
