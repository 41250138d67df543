-- ===== src/OauthProxy/Capacity.antt =====
-- store.rs, `sweep_and_check_capacity` and `expires_after`: the rule by which every bounded store
-- of the proxy admits an entry.
use ruprogress_mcp.Base.{
  ℕ, Bool, ◌||◌, none, some, ltb, Eq, arith, true, ◌≡◌, ◌≤◌, false, lt→ltb, nat_eq, ◌<◌, ◌↔◌,
}
use ruprogress_mcp.Std.Clock.{Instant, Duration, checked_add, Reads}
use ruprogress_mcp.Std.Map.{
  HashMap, len, retain, contains_key, Distinct, get, get-retain, insert, insert-Distinct, keep,
  len-insert, len-remove-le, remove, remove-Distinct, retain-Distinct, len-retain-le,
}

abbrev pub max_entries : ℕ
max_entries = 10_000

unfoldable pub expires_after : Reads → Duration → Instant
expires_after r ttl = elim (checked_add r.now ttl) [ some at ↦ at | none ↦ r.again ]

module _ {ℓ} {K V : Type ℓ} ⦃e : Eq K⦄ where
  -- Expired entries go; the answer is whether `key` may be written.
  unfoldable pub sweep_and_check_capacity :
      Instant → HashMap K (V × Instant) → K → HashMap K (V × Instant) × Bool
  sweep_and_check_capacity now m key =
      let swept = retain (λ _ entry. ltb now entry.1) m in
      (swept, ltb (len swept) max_entries || contains_key key swept)

-- A store's map: no key twice, and at most `max_entries` of them.
pub record IsStore {ℓ} {K V : Type ℓ} ⦃e : Eq K⦄ (m : HashMap K V) : Type ℓ where
  pub distinct : Distinct m
  pub bounded : len m ≤ max_entries

module _ {ℓ} {K V : Type ℓ} ⦃e : Eq K⦄ where
  -- What a key holds after a sweep.
  pub get-sweep :
      (now : Instant) (m : HashMap K (V × Instant)) (key j : K)
      → Distinct m
      → get j (sweep_and_check_capacity now m key).0 ≡ keep (λ _ entry. ltb now entry.1) j (get j m)
  unfolding sweep_and_check_capacity
  get-sweep now m key j d = get-retain (λ _ entry. ltb now entry.1) j m d

  -- A sweep keeps a store well formed.
  pub sweep-IsStore :
      (now : Instant) (m : HashMap K (V × Instant)) (key : K)
      → IsStore m
      → IsStore (sweep_and_check_capacity now m key).0
  unfolding sweep_and_check_capacity
  sweep-IsStore now m key s = record {
    distinct = retain-Distinct _ m s.distinct;
    bounded =
        omega
          (arith, len-retain-le (λ (_ : K) (entry : V × Instant). ltb now entry.1) m, s.bounded);
  }

  -- A write that the check admits keeps it well formed too.
  pub admit-IsStore :
      (now : Instant) (m : HashMap K (V × Instant)) (key : K) (v : V × Instant)
      → IsStore m
      → (sweep_and_check_capacity now m key).1 ≡ true
      → IsStore (insert key v (sweep_and_check_capacity now m key).0)
  unfolding sweep_and_check_capacity
  admit-IsStore now m key v s h =
      let swept = sweep-IsStore now m key s in
      record {
        distinct = insert-Distinct key v _ swept.distinct;
        bounded =
            ground (arith, len-insert key v (retain (λ _ entry. ltb now entry.1) m), swept.bounded);
      }

  pub remove-IsStore : (key : K) (m : HashMap K V) → IsStore m → IsStore (remove key m)
  remove-IsStore key m s = record {
    distinct = remove-Distinct key m s.distinct;
    bounded = omega (arith, len-remove-le key m, s.bounded);
  }

  pub retain-IsStore : (p : K → V → Bool) (m : HashMap K V) → IsStore m → IsStore (retain p m)
  retain-IsStore p m s = record {
    distinct = retain-Distinct p m s.distinct;
    bounded = omega (arith, len-retain-le p m, s.bounded);
  }

module _ {ℓ} {K V : Type ℓ} ⦃e : Eq K⦄ where
  -- An entry that has not expired at the sweep survives it.
  pub get-sweep_live :
      (now : Instant) (m : HashMap K (V × Instant)) (key j : K) (v : V) (at : Instant)
      → Distinct m
      → get j m ≡ some (v, at)
      → now < at
      → get j (sweep_and_check_capacity now m key).0 ≡ some (v, at)
  get-sweep_live now m key j v at d h lt = rw (get-sweep now m key j d, h, lt→ltb now at lt)

  -- Room is refused only to a new key, when `max_entries` live entries are held.
  pub no_room_iff :
      (now : Instant) (m : HashMap K (V × Instant)) (key : K)
      → ((sweep_and_check_capacity now m key).1 ≡ false) ↔ (
          (max_entries ≤ len (sweep_and_check_capacity now m key).0)
          × (get key (sweep_and_check_capacity now m key).0 ≡ none))
  unfolding sweep_and_check_capacity
  no_room_iff now m key = ground arith
