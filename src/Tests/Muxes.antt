-- ===== src/Tests/Muxes.antt =====
-- A mux that picks the longest pattern that the path starts with.
use adaptive_api_routing_gat.Base.{
  ◌≤◌, ◌≡◌, ◌⊎◌, refl, sym, ap, ◌∙◌, true, Bool-cases, Option, none, some, Option-cases,
  none-ne-some, some-injective, inl, inr, Text, has_prefix, len, leb, List, [], ◌∷◌, In, here,
  there, In-cases, arith, codes, if◌then◌else◌,
}
use adaptive_api_routing_gat.Handler.Replies.{not_found}
use adaptive_api_routing_gat.Handler.Server.Endpoints.{Mux, IsMux, Picked, to, by_mux}

module _ {E : Type 0} where
  -- The entry itself, unless there is a longer one among the rest.
  abbrev longer_of : Text × E → Option (Text × E) → Text × E
  longer_of x none = x
  longer_of x (some y) = if leb (len y.0) (len x.0) then x else y

  abbrev longest : Text → List (Text × E) → Option (Text × E)
  longest path [] = none
  longest path (x ∷ xs) =
      let rest = longest path xs in if has_prefix path x.0 then some (longer_of x rest) else rest

  abbrev picked : Option (Text × E) → Picked E
  picked none = by_mux (not_found (codes "404 page not found"))
  picked (some x) = to x.1 []

  longer_of-cases :
      (x : Text × E) (o : Option (Text × E)) → (longer_of x o ≡ x) ⊎ (o ≡ some (longer_of x o))
  longer_of-cases x none = inl refl
  longer_of-cases x (some y) = elim (Bool-cases (leb (len y.0) (len x.0))) [
    | inl e ↦ inl (rw e)
    | inr e ↦ inr (rw e)
  ]

  longer_of-le :
      (x : Text × E) (o : Option (Text × E))
      → (len x.0 ≤ len (longer_of x o).0)
        × ((y : Text × E) → o ≡ some y → len y.0 ≤ len (longer_of x o).0)
  longer_of-le x none = (omega arith, λ y e. absurd (none-ne-some e))
  longer_of-le x (some y) = elim (Bool-cases (leb (len y.0) (len x.0))) [
    | inl e ↦ rw e (
      omega arith,
      λ z q. let p = ap (λ (o : Text × E). len o.0) (some-injective q) in ground arith,
    )
    | inr e ↦ rw e (
      ground arith,
      λ z q. let p = ap (λ (o : Text × E). len o.0) (some-injective q) in ground arith,
    )
  ]

  longest-In :
      (path : Text) (xs : List (Text × E)) (y : Text × E) → longest path xs ≡ some y → In y xs
  longest-In path [] y e = absurd (none-ne-some e)
  longest-In path (x ∷ xs) y e = elim (Bool-cases (has_prefix path x.0)) [
    | inl fits ↦
        let q : longer_of x (longest path xs) ≡ y = some-injective (rw fits at e) in
        elim (longer_of-cases x (longest path xs)) [
          | inl own ↦ rw (sym q ∙ own) here
          | inr other ↦ there (longest-In path xs y (other ∙ ap some q))
        ]
    | inr misses ↦ there (longest-In path xs y (rw misses at e))
  ]

  longest-ne-none :
      (path : Text) (xs : List (Text × E)) (x : Text × E)
      → In x xs
      → has_prefix path x.0 ≡ true
      → longest path xs ≡ none
      → ⊥
  longest-ne-none path [] x i h e = elim i [ ]
  longest-ne-none path (z ∷ zs) x i h e = elim (Bool-cases (has_prefix path z.0)) [
    | inl fits ↦ none-ne-some (sym (rw fits at e))
    | inr misses ↦ elim (In-cases i) [
      | inl first ↦
          let p = ap (λ (o : Text × E). has_prefix path o.0) first in absurd (ground arith)
      | inr later ↦ longest-ne-none path zs x later h (rw misses at e)
    ]
  ]

  longest-le :
      (path : Text) (xs : List (Text × E)) (x y : Text × E)
      → In x xs
      → has_prefix path x.0 ≡ true
      → longest path xs ≡ some y
      → len x.0 ≤ len y.0
  longest-le path [] x y i h e = elim i [ ]
  longest-le path (z ∷ zs) x y i h e = elim (Bool-cases (has_prefix path z.0)) [
    | inl fits ↦
        let q : longer_of z (longest path zs) ≡ y = some-injective (rw fits at e) in
        let same_len = ap (λ (o : Text × E). len o.0) q in
        let bounds = longer_of-le z (longest path zs) in
        elim (In-cases i) [
          | inl first ↦ let p = ap (λ (o : Text × E). len o.0) first in omega (arith, bounds.0)
          | inr later ↦ elim (Option-cases (longest path zs)) [
            | inl nothing ↦ absurd (longest-ne-none path zs x later h nothing)
            | inr (w, at_w) ↦
                let p = longest-le path zs x w later h at_w in omega (arith, bounds.1 w at_w)
          ]
        ]
    | inr misses ↦ elim (In-cases i) [
      | inl first ↦
          let p = ap (λ (o : Text × E). has_prefix path o.0) first in absurd (ground arith)
      | inr later ↦ longest-le path zs x y later h (rw misses at e)
    ]
  ]

picked-some :
    {E : Type 0} (o : Option (Text × E)) {e : E} {value : Text}
    → picked o ≡ to e value
    → (y : Text × E) × (o ≡ some y) × (y.1 ≡ e)
picked-some none h = absurd (ground arith)
picked-some (some y) h = (y, refl, ground arith)

abbrev pub longest_mux : Mux
longest_mux = record { pick = λ es method path. picked (longest path es) }

pub longest_mux-IsMux : IsMux longest_mux
longest_mux-IsMux = record {
  most_specific = λ es method path {e} {value} h p e' i s fits.
      let (y, found, same_handler) = picked-some (longest path es) h in
      (
        y.0,
        rw (← same_handler) (longest-In path es y found),
        longest-le path es (p, e') y i fits found,
      );
}
