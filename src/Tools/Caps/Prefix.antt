-- ===== src/Tools/Caps/Prefix.antt =====
-- tools/output.rs: `set_prefix` moves items between the array and the spare ones, and loses none.
use ruprogress_mcp.Tools.Caps.{Split, grow, set_prefix, shrink}
use mathlib.Core.List.{append-nil, append_assoc, reverse, reverse_aux}
use ruprogress_mcp.Base.{
  Bool-cases, List, [], arith, inl, inr, length, ltb, min, refl, sym, take, ℕ, ◌++◌, ◌+◌, ◌∷◌, ◌≡◌,
  ◌≤◌, ◌∙◌, ap, ap₂, nat_eq,
}

module _ {A : Type 0} where
  -- All the items, in the order that they came in.
  abbrev pub items_of : Split A → List A
  items_of split = reverse_aux split.stack split.spare

  shrink-items :
      (k : ℕ) (stack spare : List A) → items_of (shrink k stack spare) ≡ reverse_aux stack spare
  unfolding shrink
  shrink-items k [] spare = refl
  shrink-items k (x ∷ stack) spare = elim (Bool-cases (ltb k (length (x ∷ stack)))) [
    | inl longer ↦ rw (shrink, longer) (shrink-items k stack (x ∷ spare))
    | inr fits ↦ rw (shrink, fits) refl
  ]

  length-shrink :
      (k : ℕ) (stack spare : List A) → length (shrink k stack spare).stack ≡ min k (length stack)
  unfolding shrink
  length-shrink k [] spare = omega arith
  length-shrink k (x ∷ stack) spare = ground (arith, length-shrink k stack (x ∷ spare))

  grow-items :
      (k : ℕ) (stack spare : List A) → items_of (grow k stack spare) ≡ reverse_aux stack spare
  unfolding grow
  grow-items k stack [] = refl
  grow-items k stack (x ∷ spare) = elim (Bool-cases (ltb (length stack) k)) [
    | inl shorter ↦ rw (grow, shorter) (grow-items k (x ∷ stack) spare)
    | inr full ↦ rw (grow, full) refl
  ]

  length-grow :
      (k : ℕ) (stack spare : List A)
      → length stack ≤ k
      → length (grow k stack spare).stack ≡ min k (length stack + length spare)
  unfolding grow
  length-grow k stack [] low = omega (arith, low)
  length-grow k stack (x ∷ spare) low = ground (arith, length-grow k (x ∷ stack) spare)

  -- Moving items keeps them all, in order.
  pub set_prefix-items : (split : Split A) (k : ℕ) → items_of (set_prefix split k) ≡ items_of split
  unfolding set_prefix
  set_prefix-items split k =
      let shrunk = shrink k split.stack split.spare in
      grow-items k shrunk.stack shrunk.spare ∙ shrink-items k split.stack split.spare

  length-reverse_aux : (xs ys : List A) → length (reverse_aux xs ys) ≡ length xs + length ys
  length-reverse_aux [] ys = omega arith
  length-reverse_aux (x ∷ xs) ys = omega (arith, length-reverse_aux xs (x ∷ ys))

  length-set_prefix :
      (split : Split A) (k : ℕ)
      → length (set_prefix split k).stack ≡ min k (length (items_of split))
  unfolding set_prefix
  length-set_prefix split k =
      let shrunk = shrink k split.stack split.spare in
      let short = length-shrink k split.stack split.spare in
      let kept = ap length (shrink-items k split.stack split.spare) in
      omega (
        arith,
        short,
        kept,
        length-grow k shrunk.stack shrunk.spare (omega (arith, short)),
        length-reverse_aux shrunk.stack shrunk.spare,
      )

  reverse_aux-append : (xs ys : List A) → reverse_aux xs ys ≡ reverse_aux xs [] ++ ys
  reverse_aux-append [] ys = refl
  reverse_aux-append (x ∷ xs) ys =
      reverse_aux-append xs (x ∷ ys)
      ∙ sym (append_assoc (reverse_aux xs []) (x ∷ []) ys)
      ∙ ap (λ zs. zs ++ ys) (sym (reverse_aux-append xs (x ∷ [])))

  take-append : (xs ys : List A) → take (length xs) (xs ++ ys) ≡ xs
  take-append [] ys = refl
  take-append (x ∷ xs) ys = ap (λ zs. x ∷ zs) (take-append xs ys)

  -- What is in the array is a prefix of the items.
  stack-take : (split : Split A) → reverse split.stack ≡ take (length split.stack) (items_of split)
  stack-take split =
      sym (take-append (reverse split.stack) split.spare)
      ∙ ap₂ take {x = length (reverse split.stack)}
          (omega (arith, length-reverse_aux split.stack []))
          (sym (reverse_aux-append split.stack split.spare))

  -- The array holds the first `k` items, as far as there are so many.
  pub set_prefix-take :
      (split : Split A) (items : List A) (k : ℕ)
      → items_of split ≡ items
      → k ≤ length items
      → reverse (set_prefix split k).stack ≡ take k items
  set_prefix-take split items k whole low =
      stack-take (set_prefix split k)
      ∙ ap₂ take {x = length (set_prefix split k).stack} {y = k}
          (omega (arith, low, length-set_prefix split k, ap length whole))
          (set_prefix-items split k ∙ whole)

  reverse_aux_twice :
      (xs ys zs : List A) → reverse_aux (reverse_aux xs ys) zs ≡ reverse_aux ys (xs ++ zs)
  reverse_aux_twice [] ys zs = refl
  reverse_aux_twice (x ∷ xs) ys zs = reverse_aux_twice xs (x ∷ ys) zs

  pub reverse_twice : (xs : List A) → reverse (reverse xs) ≡ xs
  reverse_twice xs = reverse_aux_twice xs [] [] ∙ append-nil xs
