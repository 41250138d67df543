-- ===== src/Std/Map.antt =====
-- `std::collections::HashMap` as an association list with distinct keys: the order of the list
-- stands for the unspecified order of iteration.
use ruprogress_mcp.Base.{
  ℕ, suc, ◌≤◌, ◌≡◌, refl, Bool, Option, none, some, List, [], ◌∷◌, arith, length, if◌then◌else◌,
  is_some, Eq, ◌==◌, ==_refl, any, nat_eq, true,
}

abbrev pub HashMap {ℓ} : Type ℓ → Type ℓ → Type ℓ
HashMap K V = List (K × V)

module _ {ℓ} {K V : Type ℓ} where
  abbrev pub len : HashMap K V → ℕ
  len m = length m

  -- `HashMap::retain` by a test of the key and the value.
  unfoldable pub retain : (K → V → Bool) → HashMap K V → HashMap K V
  retain p [] = []
  retain p ((k, v) ∷ m) = if p k v then (k, v) ∷ retain p m else retain p m

  -- What `retain` leaves of a value.
  abbrev pub keep : (K → V → Bool) → K → Option V → Option V
  keep p k none = none
  keep p k (some v) = if p k v then some v else none

  pub len-retain-le : (p : K → V → Bool) (m : HashMap K V) → len (retain p m) ≤ len m
  unfolding retain
  len-retain-le p [] = omega arith
  len-retain-le p ((k, v) ∷ m) = ground (arith, len-retain-le p m)

module _ {ℓ} {K V : Type ℓ} ⦃e : Eq K⦄ where
  unfoldable pub get : K → HashMap K V → Option V
  get k [] = none
  get k ((j, v) ∷ m) = if j == k then some v else get k m

  unfoldable pub insert : K → V → HashMap K V → HashMap K V
  insert k v [] = (k, v) ∷ []
  insert k v ((j, w) ∷ m) = if j == k then (k, v) ∷ m else (j, w) ∷ insert k v m

  unfoldable pub remove : K → HashMap K V → HashMap K V
  remove k [] = []
  remove k ((j, v) ∷ m) = if j == k then remove k m else (j, v) ∷ remove k m

  abbrev pub contains_key : K → HashMap K V → Bool
  contains_key k m = is_some (get k m)

  -- No key occurs twice.
  abbrev pub Distinct : HashMap K V → Type ℓ
  Distinct [] = Unit
  Distinct ((k, v) ∷ m) = (get k m ≡ none) × Distinct m

  pub get-insert :
      (j k : K) (v : V) (m : HashMap K V)
      → get j (insert k v m) ≡ (if k == j then some v else get j m)
  unfolding get insert
  get-insert j k v [] = refl
  get-insert j k v ((i, w) ∷ m) =
      ground (arith, e.beq_iff k j, e.beq_iff i k, e.beq_iff i j, get-insert j k v m)

  pub get-remove :
      (j k : K) (m : HashMap K V) → get j (remove k m) ≡ (if k == j then none else get j m)
  unfolding get remove
  get-remove j k [] = ground arith
  get-remove j k ((i, w) ∷ m) =
      ground (arith, e.beq_iff k j, e.beq_iff i k, e.beq_iff i j, get-remove j k m)

  pub get-retain-none :
      (p : K → V → Bool) (k : K) (m : HashMap K V) → get k m ≡ none → get k (retain p m) ≡ none
  unfolding get retain
  get-retain-none p k [] h = refl
  get-retain-none p k ((j, v) ∷ m) h = ground (arith, get-retain-none p k m)

  pub get-retain :
      (p : K → V → Bool) (k : K) (m : HashMap K V)
      → Distinct m
      → get k (retain p m) ≡ keep p k (get k m)
  unfolding get retain
  get-retain p k [] d = refl
  get-retain p k ((j, v) ∷ m) d =
      ground (arith, e.beq_iff j k, get-retain p k m d.1, get-retain-none p j m d.0)

  pub insert-Distinct : (k : K) (v : V) (m : HashMap K V) → Distinct m → Distinct (insert k v m)
  unfolding get insert
  insert-Distinct k v [] d = (refl, tt)
  insert-Distinct k v ((j, w) ∷ m) d =
      ground (arith, e.beq_iff j k, e.beq_iff k j, get-insert j k v m, insert-Distinct k v m d.1)

  pub remove-Distinct : (k : K) (m : HashMap K V) → Distinct m → Distinct (remove k m)
  unfolding get remove
  remove-Distinct k [] d = tt
  remove-Distinct k ((j, w) ∷ m) d = ground (arith, get-remove j k m, remove-Distinct k m d.1)

  pub retain-Distinct : (p : K → V → Bool) (m : HashMap K V) → Distinct m → Distinct (retain p m)
  unfolding retain
  retain-Distinct p [] d = tt
  retain-Distinct p ((j, w) ∷ m) d =
      ground (arith, get-retain-none p j m d.0, retain-Distinct p m d.1)

  pub len-insert :
      (k : K) (v : V) (m : HashMap K V)
      → len (insert k v m) ≡ (if contains_key k m then len m else suc (len m))
  unfolding get insert
  len-insert k v [] = refl
  len-insert k v ((j, w) ∷ m) = ground (arith, len-insert k v m)

  pub len-remove-le : (k : K) (m : HashMap K V) → len (remove k m) ≤ len m
  unfolding remove
  len-remove-le k [] = omega arith
  len-remove-le k ((j, v) ∷ m) = ground (arith, len-remove-le k m)

module _ {ℓ} {K V : Type ℓ} ⦃e : Eq K⦄ where
  -- `HashMap::remove`: the map without the key, and what the key held.
  abbrev pub take_entry : K → HashMap K V → HashMap K V × Option V
  take_entry k m = (remove k m, get k m)

  -- What `retain` keeps passes its test.
  pub get-retain_passes :
      (p : K → V → Bool) (k : K) (v : V) (m : HashMap K V)
      → get k (retain p m) ≡ some v
      → p k v ≡ true
  unfolding get retain
  get-retain_passes p k v [] h = cc
  get-retain_passes p k v ((j, w) ∷ m) h = ground (arith, e.beq_iff j k, get-retain_passes p k v m)

  pub insert-insert : (k : K) (v w : V) (m : HashMap K V) → insert k v (insert k w m) ≡ insert k v m
  unfolding insert
  insert-insert k v w [] = ground (arith, ==_refl k)
  insert-insert k v w ((j, x) ∷ m) = ground (arith, ==_refl k, insert-insert k v w m)

  -- To write what is there already changes nothing.
  pub insert-get : (k : K) (v : V) (m : HashMap K V) → get k m ≡ some v → insert k v m ≡ m
  unfolding get insert
  insert-get k v [] h = cc
  insert-get k v ((j, x) ∷ m) h = ground (arith, e.beq_iff j k, insert-get k v m)

  -- The values that pass a test, through the keys that hold them.
  pub any-get :
      (p : K × V → Bool) (k : K) (v : V) (m : HashMap K V)
      → get k m ≡ some v
      → p (k, v) ≡ true
      → any p m ≡ true
  unfolding get
  any-get p k v [] h q = cc
  any-get p k v ((j, x) ∷ m) h q = ground (arith, e.beq_iff j k, any-get p k v m)
