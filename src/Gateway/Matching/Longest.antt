-- ===== src/Gateway/Matching/Longest.antt =====
-- The route that is matched is the longest that fits, whatever the order of the map.
use adaptive_api_routing_gat.Base.{
  ◌≤◌, ◌≡◌, refl, sym, ◌∙◌, true, false, Option, none, some, List, [], ◌∷◌, In, here, there,
  In-cases, Text, same, same_iff, len, Bool-cases, inl, inr, ◌⊎◌, arith,
}
use adaptive_api_routing_gat.Base.Int.{ℤ, pos, negsuc, ltb_ℤ, ◌≤ℤ◌}
use adaptive_api_routing_gat.Model.Routes.{Route}
use adaptive_api_routing_gat.Store.Entities.{list_routes}
use adaptive_api_routing_gat.Store.Memory.{MemoryStore}
use adaptive_api_routing_gat.Gateway.Matching.{covers, match_from, match_routes, match_route}

-- A route that a request fits.
abbrev pub Fits : Text → Text → Route → Type 0
Fits method path r = (r.method ≡ method) × (covers r path ≡ true)

-- A listed route that fits, and as long in bytes as any other that does.
pub record IsLongest (method path : Text) (rs : List Route) (r : Route) : Type 0 where
  pub listed : In r rs
  pub fits : Fits method path r
  pub longest : (r' : Route) → In r' rs → Fits method path r' → len r'.path ≤ len r.path

-- The two ways in which a round of the loop goes on.
match_step :
    (method path : Text) (best : ℤ) (matched : Option Route) (r : Route) (rs : List Route)
    → (Fits method path r
        × (ltb_ℤ best (pos (len r.path)) ≡ true)
        × (match_from method path best matched (r ∷ rs)
            ≡ match_from method path (pos (len r.path)) (some r) rs))
      ⊎ ((Fits method path r → ltb_ℤ best (pos (len r.path)) ≡ false)
          × (match_from method path best matched (r ∷ rs) ≡ match_from method path best matched rs))
unfolding match_from
match_step method path best matched r rs = elim (Bool-cases (same r.method method)) [
  | inr other ↦ inr (λ fits. ground (arith, same_iff r.method method), ground arith)
  | inl method_fits ↦ elim (Bool-cases (covers r path)) [
    | inr apart ↦ inr (λ fits. ground arith, ground arith)
    | inl covered ↦ elim (Bool-cases (ltb_ℤ best (pos (len r.path)))) [
      | inl longer ↦ inl (((same_iff r.method method).0 method_fits, covered), longer, ground arith)
      | inr shorter ↦ inr (λ fits. shorter, ground arith)
    ]
  ]
]

-- What the loop knows of its best length.
abbrev IsBest : ℤ → Option Route → Type 0
IsBest best none = best ≡ negsuc 0
IsBest best (some r) = best ≡ pos (len r.path)

record Found (method path : Text) (best : ℤ) (matched : Option Route) (rs : List Route) (r : Route)
    : Type 0 where
  source : (In r rs × Fits method path r) ⊎ (matched ≡ some r)
  better : best ≤ℤ pos (len r.path)
  longest : (r' : Route) → In r' rs → Fits method path r' → len r'.path ≤ len r.path

module _ (method path : Text) (best : ℤ) (matched : Option Route) (q : Route) (rs : List Route)
    (r : Route) where
  Found-taken :
      Fits method path q
      → ltb_ℤ best (pos (len q.path)) ≡ true
      → Found method path (pos (len q.path)) (some q) rs r
      → Found method path best matched (q ∷ rs) r
  Found-taken fits longer h = record {
    source = elim h.source [
      | inl (i, fits') ↦ inl (there i, fits')
      | inr e ↦ let p : q ≡ r = ground arith in inl (rw p here, rw (← p) fits)
    ];
    better = let b = h.better in ground arith;
    longest = λ r' i f. elim (In-cases i) [
      | inl at_q ↦ let b = h.better in rw at_q (omega arith)
      | inr later ↦ h.longest r' later f
    ];
  }

  Found-passed :
      (Fits method path q → ltb_ℤ best (pos (len q.path)) ≡ false)
      → Found method path best matched rs r
      → Found method path best matched (q ∷ rs) r
  Found-passed not_taken h = record {
    source = elim h.source [ inl (i, fits) ↦ inl (there i, fits) | inr e ↦ inr e ];
    better = h.better;
    longest = λ r' i f. elim (In-cases i) [
      | inl at_q ↦
          let shorter = not_taken (rw at_q at f) in let b = h.better in rw at_q (ground arith)
      | inr later ↦ h.longest r' later f
    ];
  }

match_from-Found :
    (method path : Text) (best : ℤ) (matched : Option Route) (rs : List Route) (r : Route)
    → IsBest best matched
    → match_from method path best matched rs ≡ some r
    → Found method path best matched rs r
match_from-Found method path best none [] r b e = unfold match_from in cc
match_from-Found method path best (some q) [] r b e = record {
  source = inr (unfold match_from in e);
  better = let p : q ≡ r = unfold match_from in cc in rw (← p) (ground arith);
  longest = λ r' i f. elim i [ ];
}
match_from-Found method path best matched (q ∷ rs) r b e =
    elim (match_step method path best matched q rs) [
      | inl (fits, longer, next) ↦
          let h =
            match_from-Found method path (pos (len q.path)) (some q) rs r refl (sym next ∙ e) in
          Found-taken method path best matched q rs r fits longer h
      | inr (not_taken, next) ↦
          let h = match_from-Found method path best matched rs r b (sym next ∙ e) in
          Found-passed method path best matched q rs r not_taken h
    ]

IsBest-none :
    (best : ℤ) (matched : Option Route) → IsBest best matched → matched ≡ none → best ≡ negsuc 0
IsBest-none best none b e = b
IsBest-none best (some q) b e = cc

match_from-none :
    (method path : Text) (best : ℤ) (matched : Option Route) (rs : List Route)
    → IsBest best matched
    → match_from method path best matched rs ≡ none
    → (matched ≡ none) × ((r : Route) → In r rs → ¬ Fits method path r)
match_from-none method path best matched [] b e = (unfold match_from in e, λ r i f. elim i [ ])
match_from-none method path best matched (q ∷ rs) b e =
    elim (match_step method path best matched q rs) [
      | inl (fits, longer, next) ↦
          let h = match_from-none method path (pos (len q.path)) (some q) rs refl (sym next ∙ e) in
          absurd (some-ne-none h.0)
      | inr (not_taken, next) ↦
          let h = match_from-none method path best matched rs b (sym next ∙ e) in
          (
            h.0,
            λ r i f. elim (In-cases i) [
              | inl at_q ↦ first_fits q h.0 (not_taken (rw at_q at f))
              | inr later ↦ h.1 r later f
            ],
          )
    ]
  where
    some-ne-none : {q : Route} → some q ≡ none → ⊥
    some-ne-none p = cc

    first_fits : (q : Route) → matched ≡ none → ltb_ℤ best (pos (len q.path)) ≡ false → ⊥
    first_fits q m shorter = let best_none = IsBest-none best matched b m in ground arith

match_routes-IsLongest :
    (method path : Text) (rs : List Route) {r : Route}
    → match_routes method path rs ≡ some r
    → IsLongest method path rs r
unfolding match_routes
match_routes-IsLongest method path rs {r} e =
    let h = match_from-Found method path (negsuc 0) none rs r refl e in
    elim h.source [
      | inl (listed, fits) ↦ record { listed = listed; fits = fits; longest = h.longest }
      | inr p ↦ absurd (none-ne-some p)
    ]
  where
    none-ne-some : none ≡ some r → ⊥
    none-ne-some p = cc

-- The route that `MatchRoute` returns is stored, has the request's method and covers its path (it
-- is the path, or the path goes on behind it with a slash), and no stored route that does so too
-- is longer.
pub match_route-IsLongest :
    (method path : Text) (s : MemoryStore) {r : Route}
    → match_route method path s ≡ some r
    → IsLongest method path (list_routes s) r
unfolding match_route
match_route-IsLongest method path s e = match_routes-IsLongest method path (list_routes s) e

-- A route is found whenever a stored one fits the request.
pub match_route-none :
    (method path : Text) (s : MemoryStore) (r : Route)
    → match_route method path s ≡ none
    → In r (list_routes s)
    → ¬ Fits method path r
unfolding match_route match_routes
match_route-none method path s r e i =
    (match_from-none method path (negsuc 0) none (list_routes s) refl e).1 r i
