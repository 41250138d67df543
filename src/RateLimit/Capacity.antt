-- ===== src/RateLimit/Capacity.antt =====
-- ratelimit.rs: no shard outgrows its cap, and the index of a shard is within bounds.
use ruprogress_mcp.RateLimit.Float.{Float}
use ruprogress_mcp.RateLimit.Buckets.{
  Bucket, Decision, Rate, check, evict_oldest, is_pristine, make_room, min_by_key, new_bucket,
  take_token,
}
use ruprogress_mcp.RateLimit.Limiter.{
  Limiter, check_at, check_limiter, max_shards, min_keys_per_shard, new_limiter, next_power_of_two,
  repeat, shard_count, check_all, div_ceil,
}
use ruprogress_mcp.Std.Map.{HashMap}
use ruprogress_mcp.Std.Map as Map
use Prim.Native.Nat.{bit_and, bit_and-bitwise, digits}
use ruprogress_mcp.Base.{
  All, Bool-cases, Eq, List, Option, Option-cases, [], ==_refl, arith, inl, inr, leb, length, max,
  min, nat_eq, none, not, refl, some, suc, zero, ℕ, ◌/◌, ◌<◌, ◌==◌, ◌∷◌, ◌≡◌, ◌≤◌, ◌≢◌, ap, subst,
  sym, ◌∙◌, true,
}

and_digits-le : (n a b : ℕ) → digits (λ b. zero) min n a b ≤ b
and_digits-le zero a b = omega arith
and_digits-le (suc n) zero b = omega arith
and_digits-le (suc n) (suc a) b = omega (arith, and_digits-le n (suc a / 2) (b / 2))

bit_and-le : (a b : ℕ) → bit_and a b ≤ b
bit_and-le a b = rw bit_and-bitwise (and_digits-le a a b)

module _ {F K : Type 0} ⦃f : Float F⦄ ⦃e : Eq K⦄ where
  min_by_key-get :
      (m : HashMap K (Bucket F)) (k : K) (b : Bucket F)
      → min_by_key m ≡ some (k, b)
      → Map.contains_key k m ≡ true
  unfolding min_by_key Map.get
  min_by_key-get [] k b h = ground (arith, h)
  min_by_key-get ((j, c) ∷ m) k b h = elim (Option-cases (min_by_key m)) [
    | inl empty ↦ ground (arith, h, empty, ==_refl j)
    | inr ((k', b'), found) ↦ ground (arith, h, found, ==_refl j, min_by_key-get m k' b' found)
  ]

  min_by_key-some : (m : HashMap K (Bucket F)) → 0 < Map.len m → min_by_key m ≢ none
  unfolding min_by_key
  min_by_key-some [] some_entries h = omega (arith, some_entries)
  min_by_key-some ((j, c) ∷ m) some_entries h = elim (Option-cases (min_by_key m)) [
    | inl empty ↦ ground (arith, h, empty)
    | inr ((k', b'), found) ↦ ground (arith, h, found)
  ]

  len-remove-lt :
      (k : K) (m : HashMap K (Bucket F))
      → Map.contains_key k m ≡ true
      → Map.len (Map.remove k m) < Map.len m
  unfolding Map.remove Map.get
  len-remove-lt k [] h = ground (arith, h)
  len-remove-lt k ((j, c) ∷ m) h = ground (arith, Map.len-remove-le k m, len-remove-lt k m)

  -- A full shard loses an entry before a new one comes in.
  len-evict_oldest-lt :
      (m : HashMap K (Bucket F)) → 0 < Map.len m → Map.len (evict_oldest m) < Map.len m
  unfolding evict_oldest
  len-evict_oldest-lt m some_entries = elim (Option-cases (min_by_key m)) [
    | inl empty ↦ absurd (min_by_key-some m some_entries empty)
    | inr ((k, b), found) ↦
        rw (evict_oldest, found) (len-remove-lt k m (min_by_key-get m k b found))
  ]

  len-evict_oldest : (m : HashMap K (Bucket F)) → suc (Map.len (evict_oldest m)) ≤ max (Map.len m) 1
  unfolding evict_oldest min_by_key
  len-evict_oldest [] = omega arith
  len-evict_oldest ((k, b) ∷ m) = omega (arith, len-evict_oldest-lt ((k, b) ∷ m) (omega arith))

  len-make_room :
      (rate : Rate F) (cap now : ℕ) (m : HashMap K (Bucket F))
      → Map.len m ≤ max cap 1
      → suc (Map.len (make_room rate cap now m)) ≤ max cap 1
  unfolding make_room
  len-make_room rate cap now m low =
      let kept : HashMap K (Bucket F) = Map.retain (λ k b. not (is_pristine rate now b)) m in
      let fewer = Map.len-retain-le (λ k b. not (is_pristine rate now b)) m in
      elim (Bool-cases (leb cap (Map.len m))) [
        | inr room ↦ rw (make_room, room) (ground (arith, room))
        | inl full ↦ elim (Bool-cases (Map.len kept == Map.len m)) [
          | inl same ↦
              rw (make_room, full, same) (ground (arith, len-evict_oldest kept, low, fewer, same))
          | inr less ↦ rw (make_room, full, less) (ground (arith, low, fewer, less))
        ]
      ]

  len-check :
      (rate : Rate F) (cap : ℕ) (key : K) (now : ℕ) (m : HashMap K (Bucket F))
      → Map.len m ≤ max cap 1
      → Map.len (check rate cap key now m).1 ≤ max cap 1
  unfolding check
  len-check rate cap key now m low = elim (Option-cases (Map.get key m)) [
    | inr (b, found) ↦
        rw (check, found)
          (ground (arith, low, found, Map.len-insert key (take_token rate b now).1 m))
    | inl missing ↦
        rw (check, missing)
          (let bucket = (take_token rate (new_bucket rate now) now).1 in
            let room = make_room rate cap now m in
            ground (arith, len-make_room rate cap now m low, Map.len-insert key bucket room))
  ]

  -- Every shard within the cap, and as many as the mask counts.
  record IsLimiter (cap count : ℕ) (l : Limiter K F) : Type 0 where
    has_cap : l.per_shard_max_keys ≡ cap
    has_mask : suc l.shard_mask ≡ count
    has_shards : length l.shards ≡ count
    within : All (λ m. Map.len m ≤ max cap 1) l.shards

  -- What a call of a shard leaves of them all.
  abbrev IsChecked : ℕ → ℕ → Option (Decision × List (HashMap K (Bucket F))) → Type 0
  IsChecked cap count none = ⊥
  IsChecked cap count (some (d, shards)) =
      (length shards ≡ count) × All (λ m. Map.len m ≤ max cap 1) shards

  check_at-IsChecked :
      (rate : Rate F) (cap : ℕ) (key : K) (now index : ℕ) (shards : List (HashMap K (Bucket F)))
      → index < length shards
      → All (λ m. Map.len m ≤ max cap 1) shards
      → IsChecked cap (length shards) (check_at rate cap key now index shards)
  unfolding check_at
  check_at-IsChecked rate cap key now index [] low all_low = absurd (omega (arith, low))
  check_at-IsChecked rate cap key now zero (m ∷ ms) low (m_low, ms_low) =
      (refl, (len-check rate cap key now m m_low, ms_low))
  check_at-IsChecked rate cap key now (suc index) (m ∷ ms) low (m_low, ms_low) =
      later-IsChecked cap m (length ms) (check_at rate cap key now index ms) m_low
        (check_at-IsChecked rate cap key now index ms (omega (arith, low)) ms_low)
    where
      later-IsChecked :
          (cap : ℕ) (m : HashMap K (Bucket F)) (count : ℕ)
          (r : Option (Decision × List (HashMap K (Bucket F))))
          → Map.len m ≤ max cap 1
          → IsChecked cap count r
          → IsChecked cap
              (suc count)
              (elim r [ none ↦ none | some (decision, shards') ↦ some (decision, m ∷ shards') ])
      later-IsChecked cap m count none m_low h = h
      later-IsChecked cap m count (some (d, shards)) m_low (same, all_low) =
          (ap suc same, (m_low, all_low))

  -- Calls that all came to a decision.
  abbrev IsRun : ℕ → ℕ → Option (Limiter K F) → Type 0
  IsRun cap count answer = (l : Limiter K F) × (answer ≡ some l) × IsLimiter cap count l

  check_all-IsRun :
      (hash : K → ℕ) (cap count : ℕ) (calls : List (K × ℕ)) (l : Limiter K F)
      → IsLimiter cap count l
      → IsRun cap count (check_all hash calls l)
  unfolding check_all check_limiter
  check_all-IsRun hash cap count [] l i = (l, refl, i)
  check_all-IsRun hash cap count ((key, now) ∷ calls) l i =
      let index = bit_and (hash key) l.shard_mask in
      let checked =
        check_at-IsChecked l.rate l.per_shard_max_keys key now index l.shards
          (omega (arith, bit_and-le (hash key) l.shard_mask, i.has_mask, i.has_shards))
          (subst (λ n. All (λ m. Map.len m ≤ max n 1) l.shards) (sym i.has_cap) i.within) in
      elim (Option-cases (check_at l.rate l.per_shard_max_keys key now index l.shards)) [
        | inl bad ↦ absurd (subst (IsChecked l.per_shard_max_keys (length l.shards)) bad checked)
        | inr ((d, shards), done) ↦
            rw (check_all, check_limiter, done)
              (let (same, all_low) =
                  subst (IsChecked l.per_shard_max_keys (length l.shards)) done checked in
                check_all-IsRun hash cap count calls (record l { shards = shards })
                  (record {
                    has_cap = i.has_cap;
                    has_mask = i.has_mask;
                    has_shards = same ∙ i.has_shards;
                    within = subst (λ n. All (λ m. Map.len m ≤ max n 1) shards) i.has_cap all_low;
                  }))
      ]

length-repeat : {A : Type 0} (n : ℕ) (a : A) → length (repeat n a) ≡ n
length-repeat zero a = refl
length-repeat (suc n) a = ap suc (length-repeat n a)

All-repeat : {A : Type 0} (P : A → Type 0) (n : ℕ) (a : A) → P a → All P (repeat n a)
All-repeat P zero a h = tt
All-repeat P (suc n) a h = (h, All-repeat P n a h)

next_power_of_two-lt : (n : ℕ) → 0 < next_power_of_two n
next_power_of_two-lt n = ground arith

-- Whatever calls a new limiter is asked for, each finds its shard (the index is within bounds),
-- and after them there are as many shards as at first, each with at most its share of `max_keys`
-- as keys, or one for a share of 0.
pub check_all-within :
    {F K : Type 0} ⦃f : Float F⦄ ⦃e : Eq K⦄ (hash : K → ℕ) (rps burst max_keys : ℕ)
    (calls : List (K × ℕ))
    → (l : Limiter K F) × (check_all hash calls (new_limiter rps burst max_keys) ≡ some l)
      × (length l.shards ≡ shard_count max_keys)
      × All (λ m. Map.len m ≤ max (div_ceil max_keys (shard_count max_keys)) 1) l.shards
unfolding new_limiter shard_count
check_all-within hash rps burst max_keys calls =
    let (l, same, i) =
      check_all-IsRun hash (div_ceil max_keys (shard_count max_keys)) (shard_count max_keys) calls
        (new_limiter rps burst max_keys)
        (record {
          has_cap = refl;
          has_mask = omega (
            arith,
            next_power_of_two-lt (max 1 (min (max_keys / min_keys_per_shard) max_shards)),
          );
          has_shards = length-repeat (shard_count max_keys) [];
          within =
              All-repeat (λ m. Map.len m ≤ max (div_ceil max_keys (shard_count max_keys)) 1)
                (shard_count max_keys) [] (omega arith);
        }) in
    (l, same, i.has_shards, i.within)
