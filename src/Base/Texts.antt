-- ===== src/Base/Texts.antt =====
-- Texts: a Go string that is valid UTF-8, as the list of its code points. `len` is its length in
-- bytes, and `trim_space` cuts the code points for which `unicode.IsSpace` holds.
use Prim.Native.Nat.{ℕ, ◌+◌, ◌≤◌}
use Prim.Native.Char.{code}
use Prim.Native.String.{String}
use mathlib.Core.Path.{◌≡◌, refl}
use mathlib.Core.Logic.{◌↔◌}
use mathlib.Core.Bool.{Bool, true, false, ◌&&◌, ◌||◌}
use mathlib.Core.List.{List, [], ◌∷◌, ◌++◌, reverse}
use native.Mathlib.Omega.{arith}
use adaptive_api_routing_gat.Base.Tests.{ltb, leb, ◌==◌, if◌then◌else◌}

abbrev pub Text : Type 0
Text = List ℕ

-- The code points of a literal.
abbrev pub codes : String → Text
codes String.[] = []
codes (String.◌∷◌ c s) = code c ∷ codes s

-- `s == t`
unfoldable pub same : Text → Text → Bool
same [] [] = true
same (a ∷ s) (b ∷ t) = a == b && same s t
same _ _ = false

pub same→eq : (s t : Text) → same s t ≡ true → s ≡ t
unfolding same
same→eq [] [] h = refl
same→eq (a ∷ s) (b ∷ t) h = ground (arith, same→eq s t)
same→eq [] (_ ∷ _) h = ground arith
same→eq (_ ∷ _) [] h = ground arith

pub same_refl : (s : Text) → same s s ≡ true
unfolding same
same_refl [] = refl
same_refl (a ∷ s) = ground (arith, same_refl s)

pub same_iff : (s t : Text) → (same s t ≡ true) ↔ (s ≡ t)
same_iff s t = (same→eq s t, λ e. ground (arith, same_refl s))

-- `s == ""`
abbrev pub is_empty : Text → Bool
is_empty [] = true
is_empty (_ ∷ _) = false

-- The bytes of a code point in UTF-8.
unfoldable pub width : ℕ → ℕ
width c = if ltb c 0x80 then 1 else if ltb c 0x800 then 2 else if ltb c 0x10000 then 3 else 4

pub width_pos : (c : ℕ) → 1 ≤ width c
unfolding width
width_pos c = ground arith

-- `len(s)`
unfoldable pub len : Text → ℕ
unfolding width
len [] = 0
len (c ∷ s) = width c + len s

-- `strings.HasPrefix(s, p)`
unfoldable pub has_prefix : Text → Text → Bool
has_prefix s [] = true
has_prefix [] (_ ∷ _) = false
has_prefix (c ∷ s) (d ∷ p) = c == d && has_prefix s p

cut_prefix : Text → Text → Text
cut_prefix s [] = s
cut_prefix [] (_ ∷ _) = []
cut_prefix (_ ∷ s) (_ ∷ p) = cut_prefix s p

-- `strings.TrimPrefix(s, p)`
unfoldable pub trim_prefix : Text → Text → Text
unfolding has_prefix cut_prefix
trim_prefix s p = if has_prefix s p then cut_prefix s p else s

pub has_prefix→append : (s p : Text) → has_prefix s p ≡ true → s ≡ p ++ trim_prefix s p
unfolding has_prefix trim_prefix
has_prefix→append s [] h = refl
has_prefix→append [] (_ ∷ _) h = ground arith
has_prefix→append (c ∷ s) (d ∷ p) h = ground (arith, has_prefix→append s p)

pub has_prefix-append : (p s : Text) → has_prefix (p ++ s) p ≡ true
unfolding has_prefix
has_prefix-append [] s = refl
has_prefix-append (c ∷ p) s = ground (arith, has_prefix-append p s)

-- Two prefixes of one text that are equally long in bytes are equal.
pub prefix_of_len :
    (s p q : Text) → has_prefix s p ≡ true → has_prefix s q ≡ true → len p ≡ len q → p ≡ q
unfolding has_prefix len
prefix_of_len s [] [] hp hq e = refl
prefix_of_len s [] (d ∷ q) hp hq e = absurd (omega (arith, width_pos d))
prefix_of_len s (d ∷ p) [] hp hq e = absurd (omega (arith, width_pos d))
prefix_of_len [] (_ ∷ _) (_ ∷ _) hp hq e = ground arith
prefix_of_len (c ∷ s) (d ∷ p) (d' ∷ q) hp hq e = ground (arith, prefix_of_len s p q)

-- `unicode.IsSpace`
abbrev pub is_space : ℕ → Bool
is_space c =
    (leb 0x09 c && leb c 0x0d)
    || c == 0x20
    || c == 0x85
    || c == 0xa0
    || c == 0x1680
    || (leb 0x2000 c && leb c 0x200a)
    || c == 0x2028
    || c == 0x2029
    || c == 0x202f
    || c == 0x205f
    || c == 0x3000

unfoldable pub trim_left : Text → Text
trim_left [] = []
trim_left (c ∷ s) = let rest = trim_left s in if is_space c then rest else c ∷ s

-- `strings.TrimSpace`
unfoldable pub trim_space : Text → Text
unfolding trim_left
trim_space s = reverse (trim_left (reverse (trim_left s)))

pub has_prefix_left : (s p q : Text) → has_prefix s (p ++ q) ≡ true → has_prefix s p ≡ true
unfolding has_prefix
has_prefix_left s [] q h = refl
has_prefix_left [] (_ ∷ _) q h = h
has_prefix_left (c ∷ s) (d ∷ p) q h = ground (arith, has_prefix_left s p q)

pub has_prefix_refl : (s : Text) → has_prefix s s ≡ true
unfolding has_prefix
has_prefix_refl [] = refl
has_prefix_refl (c ∷ s) = ground (arith, has_prefix_refl s)

cut_prefix-append : (p s : Text) → cut_prefix (p ++ s) p ≡ s
unfolding cut_prefix
cut_prefix-append [] s = refl
cut_prefix-append (c ∷ p) s = cut_prefix-append p s

pub trim_prefix-append : (p s : Text) → trim_prefix (p ++ s) p ≡ s
unfolding trim_prefix
trim_prefix-append p s = rw (has_prefix-append p s) (cut_prefix-append p s)
