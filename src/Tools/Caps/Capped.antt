-- ===== src/Tools/Caps/Capped.antt =====
-- tools/output.rs: what `apply_caps` leaves of an answer.
use ruprogress_mcp.Tools.Caps.Longest.{IsKept, IsMonotone, fit_bytes-IsKept, not-longer, take-take}
use ruprogress_mcp.Tools.Caps.{
  Json, Node, OutputCaps, Value, apply_caps, array, fields, first_array, kept_items, leaf, mark,
  mark_pagination, object, other, put_array, put_first, top_level_array,
}
use ruprogress_mcp.Std.Map as Map
use ruprogress_mcp.Base.{
  Bool, Bool-cases, Bytes, List, Option, Option-cases, [], arith, bytes_eq, codes, false,
  if◌then◌else◌, inl, inr, length, length-take, min, refl, some, subst, suc, sym, take, true, ℕ,
  ◌==◌, ◌∷◌, ◌∙◌, ◌≡◌, ◌≤◌, ap,
}

module _ {J : Type 0} where
  first_array-put :
      (ys xs : List J) (fs : List (Bytes × Node J))
      → first_array fs ≡ some xs
      → first_array (put_first ys fs) ≡ some ys
  unfolding first_array put_first
  first_array-put ys xs [] h = ground (arith, h)
  first_array-put ys xs ((k, array zs) ∷ fs) h = refl
  first_array-put ys xs ((k, fields m) ∷ fs) h = first_array-put ys xs fs h
  first_array-put ys xs ((k, leaf j) ∷ fs) h = first_array-put ys xs fs h

  -- An object that takes the place of an object is no array.
  first_array-insert :
      (k : Bytes) (m m' : Map.HashMap Bytes J) (fs : List (Bytes × Node J))
      → Map.get k fs ≡ some (fields m)
      → first_array (Map.insert k (fields m') fs) ≡ first_array fs
  unfolding first_array Map.get Map.insert
  first_array-insert k m m' [] h = ground (arith, h)
  first_array-insert k m m' ((j, array zs) ∷ fs) h = elim (Bool-cases (j == k)) [
    | inl here ↦ ground (arith, h, here)
    | inr differs ↦ rw (differs) refl
  ]
  first_array-insert k m m' ((j, fields n) ∷ fs) h = elim (Bool-cases (j == k)) [
    | inl here ↦ rw (here) refl
    | inr differs ↦ rw (differs) (first_array-insert k m m' fs (ground (arith, h, differs)))
  ]
  first_array-insert k m m' ((j, leaf x) ∷ fs) h = elim (Bool-cases (j == k)) [
    | inl here ↦ ground (arith, h, here)
    | inr differs ↦ rw (differs) (first_array-insert k m m' fs (ground (arith, h, differs)))
  ]

  first_array-mark :
      (json : Json J) (fs : List (Bytes × Node J))
      → first_array (mark_pagination json fs) ≡ first_array fs
  unfolding mark_pagination
  first_array-mark json fs = elim (Option-cases (Map.get (codes "pagination") fs)) [
    | inl missing ↦ rw (mark_pagination, missing) refl
    | inr (array xs, found) ↦ rw (mark_pagination, found) refl
    | inr (leaf j, found) ↦ rw (mark_pagination, found) refl
    | inr (fields m, found) ↦
        rw (mark_pagination, found) (first_array-insert (codes "pagination") m _ fs found)
  ]

  top_level_array-mark :
      (json : Json J) (marked : Bool) (value : Value J)
      → top_level_array (if marked then mark json value else value) ≡ top_level_array value
  unfolding top_level_array mark
  top_level_array-mark json false value = refl
  top_level_array-mark json true (object fs) = first_array-mark json fs
  top_level_array-mark json true (other j) = refl

  top_level_array-put :
      (ys xs : List J) (value : Value J)
      → top_level_array value ≡ some xs
      → top_level_array (put_array ys value) ≡ some ys
  unfolding top_level_array put_array
  top_level_array-put ys xs (object fs) h = first_array-put ys xs fs h
  top_level_array-put ys xs (other j) h = ground (arith, h)

-- The caps always come to an answer: the search ends with the fuel that it is given.
pub apply_caps-ends :
    {J : Type 0} (json : Json J) (caps : OutputCaps) (value : Value J)
    → (out : Value J) × (apply_caps json caps value ≡ some out)
unfolding apply_caps kept_items
apply_caps-ends json caps value = elim (Option-cases (top_level_array value)) [
  | inl missing ↦ (value, rw (apply_caps, missing) refl)
  | inr (items, found) ↦
      let k = fit_bytes-IsKept json caps.max_bytes value (take caps.max_items items) in
      rw (apply_caps, found, kept_items, k.answered) (_, refl)
]

-- What the kept items are, of an array that `max_items` cut first.
module _ {J : Type 0} (json : Json J) (caps : OutputCaps) (value : Value J) (items : List J) where
  abbrev few_items : List J
  few_items = take caps.max_items items

  module _ (answer : Option (List J)) (k : IsKept json caps.max_bytes value few_items answer) where
    length-kept : length k.kept ≤ min caps.max_items (length items)
    length-kept = omega (
      arith,
      ap length k.is_prefix ∙ length-take (length k.kept) few_items,
      length-take caps.max_items items,
    )

    kept-take : k.kept ≡ take (length k.kept) items
    kept-take =
        k.is_prefix ∙ take-take (length k.kept) caps.max_items items (omega (arith, length-kept))

    module _ (monotone : IsMonotone json) (m : ℕ) (few : m ≤ caps.max_items)
        (within : m ≤ length items)
        (fit : json.serialized_len (put_array (take m items) value) ≤ caps.max_bytes) where
      fit_few : json.serialized_len (put_array (take m few_items) value) ≤ caps.max_bytes
      fit_few =
          subst (λ xs. json.serialized_len (put_array xs value) ≤ caps.max_bytes)
            (sym (take-take m caps.max_items items few)) fit

      kept-longest : m ≤ length k.kept
      kept-longest = elim k.longest [
        | inl whole ↦ omega (arith, ap length whole ∙ length-take caps.max_items items, few, within)
        | inr (inl over) ↦ omega (
          arith,
          not-longer json monotone caps.max_bytes value few_items (suc (length k.kept)) m over
              fit_few,
        )
        | inr (inr nothing) ↦ absurd (
            omega
              (arith, not-longer json monotone caps.max_bytes value few_items 0 m nothing fit_few))
      ]

      kept-fits : json.serialized_len (put_array k.kept value) ≤ caps.max_bytes
      kept-fits = elim k.is_fit [
        | inr fits_too ↦ fits_too
        | inl empty ↦
            let zero_items : m ≡ 0 = omega (arith, ap length empty, kept-longest) in
            subst (λ xs. json.serialized_len (put_array xs value) ≤ caps.max_bytes)
              (ap (λ n. take n items) zero_items ∙ sym empty) fit
      ]

-- An answer with an array keeps the longest prefix of it that the caps allow: it keeps a prefix,
-- of at most `max_items` items; when a prefix of `m` of those items fits in `max_bytes`, what is
-- kept is at least as long and fits too; and one more item makes what serde_json writes no
-- shorter, which is what the search relies on. The size is that of the answer before it is marked
-- as truncated.
pub apply_caps-longest :
    {J : Type 0} (json : Json J) (caps : OutputCaps) (value : Value J) (items : List J) (m : ℕ)
    → IsMonotone json
    → top_level_array value ≡ some items
    → m ≤ caps.max_items
    → m ≤ length items
    → json.serialized_len (put_array (take m items) value) ≤ caps.max_bytes
    → (out : Value J) × (kept : List J) × (apply_caps json caps value ≡ some out)
      × (top_level_array out ≡ some kept)
      × (kept ≡ take (length kept) items)
      × (length kept ≤ caps.max_items)
      × (m ≤ length kept)
      × (json.serialized_len (put_array kept value) ≤ caps.max_bytes)
unfolding apply_caps kept_items
apply_caps-longest json caps value items m monotone found few within fit =
    let k = fit_bytes-IsKept json caps.max_bytes value (take caps.max_items items) in
    rw (apply_caps, found, kept_items, k.answered)
      (
        _,
        k.kept,
        refl,
        top_level_array-mark json _ (put_array k.kept value)
            ∙ top_level_array-put k.kept items value found,
        kept-take json caps value items _ k,
        omega (arith, length-kept json caps value items _ k),
        kept-longest json caps value items _ k monotone m few within fit,
        kept-fits json caps value items _ k monotone m few within fit,
      )
