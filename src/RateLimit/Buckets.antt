-- ===== src/RateLimit/Buckets.antt =====
-- ratelimit.rs: one bucket, and the shards that hold one for each key.
use ruprogress_mcp.RateLimit.Float.{Float}
use ruprogress_mcp.Std.Map.{HashMap}
use ruprogress_mcp.Std.Map as Map
use ruprogress_mcp.Base.{
  Bool, Eq, Option, [], false, if◌then◌else◌, leb, nat_eq, none, not, some, true, ℕ, ◌-◌, ◌==◌, ◌∷◌,
}

pub data Decision : Type 0 where
  allow : Bool → Decision
  deny : ℕ → Bool → Decision

-- An `Instant` is in nanoseconds.
pub record Bucket (F : Type 0) : Type 0 where
  pub tokens : F
  pub updated_at : ℕ
  pub limited : Bool

-- The refill and the size of every bucket.
pub record Rate (F : Type 0) : Type 0 where
  pub capacity : F
  pub refill_per_sec : F

module _ {F : Type 0} ⦃f : Float F⦄ where
  -- `Bucket::new`.
  unfoldable pub new_bucket : Rate F → ℕ → Bucket F
  new_bucket rate now = record { tokens = rate.capacity; updated_at = now; limited = false }

  -- The tokens that came since the last call: none when the clock reads less than then.
  unfoldable pub refilled : Rate F → Bucket F → ℕ → F
  refilled rate b now = f.mul (f.as_secs (now - b.updated_at)) rate.refill_per_sec

  unfoldable pub retry_after_secs : Rate F → F → ℕ
  retry_after_secs rate tokens =
      let deficit = f.sub (f.of_u32 1) tokens in
      f.clamped_ceil (
        if f.gt rate.refill_per_sec (f.of_u32 0)
        then f.div deficit rate.refill_per_sec
        else f.infinity)

  -- `Bucket::take`.
  unfoldable pub take_token : Rate F → Bucket F → ℕ → Decision × Bucket F
  unfolding refilled retry_after_secs
  take_token rate b now =
      let tokens = f.fmin (f.add b.tokens (refilled rate b now)) rate.capacity in
      if f.ge tokens (f.of_u32 1)
      then (
        allow b.limited,
        record { tokens = f.sub tokens (f.of_u32 1); updated_at = now; limited = false },
      )
      else (
        deny (retry_after_secs rate tokens) (not b.limited),
        record { tokens = tokens; updated_at = now; limited = true },
      )

  unfoldable pub is_pristine : Rate F → ℕ → Bucket F → Bool
  unfolding refilled
  is_pristine rate now b =
      if b.limited then false else f.ge (f.add b.tokens (refilled rate b now)) rate.capacity

  module _ {K : Type 0} ⦃e : Eq K⦄ where
    -- The entry that was touched first, the first of them in the map's order.
    unfoldable pub min_by_key : HashMap K (Bucket F) → Option (K × Bucket F)
    min_by_key [] = none
    min_by_key ((k, b) ∷ rest) = elim (min_by_key rest) [
      | none ↦ some (k, b)
      | some (k', b') ↦ if leb b.updated_at b'.updated_at then some (k, b) else some (k', b')
    ]

    unfoldable pub evict_oldest : HashMap K (Bucket F) → HashMap K (Bucket F)
    unfolding min_by_key
    evict_oldest buckets = elim (min_by_key buckets) [
      | none ↦ buckets
      | some (oldest, b) ↦ Map.remove oldest buckets
    ]

    -- Room for a new key in a shard that is full.
    unfoldable pub make_room : Rate F → ℕ → ℕ → HashMap K (Bucket F) → HashMap K (Bucket F)
    unfolding is_pristine evict_oldest
    make_room rate per_shard_max_keys now buckets =
        let kept = Map.retain (λ k b. not (is_pristine rate now b)) buckets in
        if leb per_shard_max_keys (Map.len buckets)
        then (if Map.len kept == Map.len buckets then evict_oldest kept else kept)
        else buckets

    -- `check`, of the shard that the key's hash chose.
    unfoldable pub check :
        Rate F → ℕ → K → ℕ → HashMap K (Bucket F) → Decision × HashMap K (Bucket F)
    unfolding take_token new_bucket make_room
    check rate per_shard_max_keys key now buckets = elim (Map.get key buckets) [
      | some bucket ↦
          let (decision, bucket') = take_token rate bucket now in
          (decision, Map.insert key bucket' buckets)
      | none ↦
          let (decision, bucket) = take_token rate (new_bucket rate now) now in
          (decision, Map.insert key bucket (make_room rate per_shard_max_keys now buckets))
    ]
