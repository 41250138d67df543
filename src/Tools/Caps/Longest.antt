-- ===== src/Tools/Caps/Longest.antt =====
-- tools/output.rs: the binary search finds the longest prefix that fits.
use ruprogress_mcp.Tools.Caps.Prefix.{items_of, reverse_twice, set_prefix-items, set_prefix-take}
use ruprogress_mcp.Tools.Caps.{Json, Split, Value, fit_bytes, put_array, search, set_prefix}
use mathlib.Core.List.{reverse}
use ruprogress_mcp.Base.{
  Bool, Bool-cases, List, Option, [], arith, bytes_eq, inl, inr, leb, length, length-take, ltb,
  ltb→lt, leb→le, none, refl, some, subst, suc, sym, take, zero, ℕ, ◌++◌, ◌+◌, ◌-◌, ◌/◌, ◌<◌, ◌∷◌,
  ◌≡◌, ◌≤◌, ◌⊎◌, ◌∙◌, ap, nat_eq, true, false, ◌==◌,
}

module _ {J : Type 0} (json : Json J) (max_bytes : ℕ) (value : Value J) (items : List J) where
  -- The answer with the first items only fits.
  abbrev pub fits : ℕ → Bool
  fits k = leb (json.serialized_len (put_array (take k items) value)) max_bytes

  -- What the search has found when it ends.
  record IsFound (found : Option (ℕ × Split J)) : Type 0 where
    edge : ℕ
    split : Split J
    ended : found ≡ some (edge, split)
    intact : items_of split ≡ items
    low : edge ≤ length items
    below : (edge ≡ 0) ⊎ (fits (edge - 1) ≡ true)
    above : fits edge ≡ false

  search-IsFound :
      (fuel lo hi : ℕ) (split : Split J)
      → hi < lo + fuel
      → lo ≤ hi
      → hi ≤ length items
      → items_of split ≡ items
      → (lo ≡ 0) ⊎ (fits (lo - 1) ≡ true)
      → fits hi ≡ false
      → IsFound (search json max_bytes value fuel lo hi split)
  unfolding search
  search-IsFound zero lo hi split enough order low intact below above =
      absurd (omega (arith, enough, order))
  search-IsFound (suc fuel) lo hi split enough order low intact below above =
      let mid = (lo + hi) / 2 in
      let same = set_prefix-take split items mid intact (omega (arith, order, low)) in
      elim (Bool-cases (ltb lo hi)) [
        | inr met ↦
            rw (search, met)
              (record {
                edge = lo;
                split = split;
                ended = refl;
                intact = intact;
                low = omega (arith, order, low);
                below = below;
                above =
                    subst (λ k. fits k ≡ false) {x = hi} {y = lo} (ground (arith, met, order))
                      above;
              })
        | inl apart ↦
            rw (search, apart, same)
              (elim (Bool-cases (fits mid)) [
                | inl fit ↦ rw (fit) (
                    search-IsFound fuel (mid + 1) hi (set_prefix split mid)
                      (omega (arith, enough, order)) (omega (arith, ltb→lt lo hi apart)) low
                      (set_prefix-items split mid ∙ intact)
                      (inr
                        (subst (λ k. fits k ≡ true) {x = mid} {y = mid + 1 - 1} (omega arith) fit))
                      above)
                | inr over ↦ rw (over) (
                    search-IsFound fuel lo mid (set_prefix split mid)
                      (omega (arith, enough, ltb→lt lo hi apart)) (omega (arith, order))
                      (omega (arith, order, low)) (set_prefix-items split mid ∙ intact) below over)
              ])
      ]

take-step :
    {A : Type 0} (k : ℕ) (xs : List A)
    → (take (suc k) xs ≡ take k xs) ⊎ ((x : A) × (take (suc k) xs ≡ take k xs ++ x ∷ []))
take-step zero [] = inl refl
take-step zero (x ∷ xs) = inr (x, refl)
take-step (suc k) [] = inl refl
take-step (suc k) (x ∷ xs) = elim (take-step k xs) [
  | inl same ↦ inl (ap (λ ys. x ∷ ys) same)
  | inr (y, one) ↦ inr (y, ap (λ ys. x ∷ ys) one)
]

-- One more item makes what is written no shorter.
abbrev pub IsMonotone : {J : Type 0} → Json J → Type 0
IsMonotone {J} json =
    (v : Value J) (xs : List J) (x : J)
    → json.serialized_len (put_array xs v) ≤ json.serialized_len (put_array (xs ++ x ∷ []) v)

module _ {J : Type 0} (json : Json J) (monotone : IsMonotone json) where
  written : Value J → List J → ℕ
  written value xs = json.serialized_len (put_array xs value)

  written-step :
      (value : Value J) (items : List J) (k : ℕ)
      → written value (take k items) ≤ written value (take (suc k) items)
  unfolding written
  written-step value items k = elim (take-step k items) [
    | inl same ↦ omega (arith, ap (λ xs. json.serialized_len (put_array xs value)) same)
    | inr (x, one) ↦ omega (
      arith,
      monotone value (take k items) x,
      ap (λ xs. json.serialized_len (put_array xs value)) one,
    )
  ]

  written-le :
      (value : Value J) (items : List J) (k more : ℕ)
      → written value (take k items) ≤ written value (take (k + more) items)
  written-le value items k zero =
      omega (arith, ap (λ n. written value (take n items)) {x = k} {y = k + 0} (omega arith))
  written-le value items k (suc more) = omega (
    arith,
    written-le value items k more,
    written-step value items (k + more),
    ap (λ n. written value (take n items)) {x = suc (k + more)} {y = k + suc more} (omega arith),
  )

  -- A longer prefix that fits is not cut by the search.
  pub not-longer :
      (max_bytes : ℕ) (value : Value J) (items : List J) (edge m : ℕ)
      → fits json max_bytes value items edge ≡ false
      → json.serialized_len (put_array (take m items) value) ≤ max_bytes
      → m < edge
  unfolding written
  not-longer max_bytes value items edge m over fit = elim (Bool-cases (ltb m edge)) [
    | inl less ↦ ltb→lt m edge less
    | inr more ↦ absurd (
        ground (
          arith,
          more,
          over,
          fit,
          written-le value items edge (m - edge),
          ap (λ n. written value (take n items)) {x = edge + (m - edge)} {y = m}
              (ground (arith, more)),
        ))
  ]

pub take-length : {A : Type 0} (xs : List A) → take (length xs) xs ≡ xs
take-length [] = refl
take-length (x ∷ xs) = ap (λ ys. x ∷ ys) (take-length xs)

pub take-take : {A : Type 0} (m n : ℕ) (xs : List A) → m ≤ n → take m (take n xs) ≡ take m xs
take-take zero n xs low = refl
take-take (suc m) zero xs low = absurd (omega (arith, low))
take-take (suc m) (suc n) [] low = refl
take-take (suc m) (suc n) (x ∷ xs) low = ap (λ ys. x ∷ ys) (take-take m n xs (omega (arith, low)))

module _ {J : Type 0} (json : Json J) (max_bytes : ℕ) (value : Value J) where
  -- The items that stay: a prefix that fits, or none.
  pub record IsKept (items : List J) (answer : Option (List J)) : Type 0 where
    pub kept : List J
    pub answered : answer ≡ some kept
    pub is_prefix : kept ≡ take (length kept) items
    pub is_fit : (kept ≡ []) ⊎ (json.serialized_len (put_array kept value) ≤ max_bytes)
    pub longest :
        (kept ≡ items)
        ⊎ ((fits json max_bytes value items (suc (length kept)) ≡ false)
            ⊎ (fits json max_bytes value items 0 ≡ false))

  -- The items that a search leaves in the array.
  abbrev cut_items : Option (ℕ × Split J) → Option (List J)
  unfolding set_prefix
  cut_items none = none
  cut_items (some (lo, split)) = some (reverse (set_prefix split (lo - 1)).stack)

  cut-IsKept :
      (items : List J) (search_result : Option (ℕ × Split J))
      → IsFound json max_bytes value items search_result
      → IsKept items (cut_items search_result)
  unfolding cut_items
  cut-IsKept items search_result found =
      let n = found.edge - 1 in
      let cut = set_prefix-take found.split items n found.intact (omega (arith, found.low)) in
      let size : length (take n items) ≡ n = length-take n items ∙ omega (arith, found.low) in
      rw (found.ended, cut)
        (record {
          kept = take n items;
          answered = refl;
          is_prefix = ap (λ k. take k items) (sym size);
          is_fit = elim found.below [
            | inl first ↦ inl (ap (λ k. take k items) {x = n} {y = 0} (omega (arith, first)))
            | inr fit ↦
                inr (leb→le (json.serialized_len (put_array (take n items) value)) max_bytes fit)
          ];
          longest = elim (Bool-cases (found.edge == 0)) [
            | inl first ↦ inr (
                inr (
                  subst (λ k. fits json max_bytes value items k ≡ false) {x = found.edge} {y = 0}
                    (ground (arith, first)) found.above))
            | inr later ↦ inr (
                inl (
                  subst (λ k. fits json max_bytes value items k ≡ false) {x = found.edge}
                    {y = suc (length (take n items))} (ground (arith, later, size)) found.above))
          ];
        })

  pub fit_bytes-IsKept : (items : List J) → IsKept items (fit_bytes json max_bytes value items)
  unfolding fit_bytes cut_items
  fit_bytes-IsKept items =
      elim (Bool-cases (leb (json.serialized_len (put_array items value)) max_bytes)) [
        | inl fit ↦
            rw (fit_bytes, fit)
              (record {
                kept = items;
                answered = refl;
                is_prefix = sym (take-length items);
                is_fit = inr (leb→le (json.serialized_len (put_array items value)) max_bytes fit);
                longest = inl refl;
              })
        | inr over ↦
            let whole : Split J = record { stack = reverse items; spare = [] } in
            rw (fit_bytes, over)
              (cut-IsKept items _ (
                search-IsFound json max_bytes value items (suc (length items)) 0 (length items)
                  whole (omega arith) (omega arith) (omega arith) (reverse_twice items) (inl refl)
                  (subst (λ xs. leb (json.serialized_len (put_array xs value)) max_bytes ≡ false)
                    (sym (take-length items)) over)))
      ]
