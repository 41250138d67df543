-- ===== src/RateLimit/Limiter.antt =====
-- ratelimit.rs: the limiter, which keeps its keys in shards by their hash.
use ruprogress_mcp.RateLimit.Float.{Float}
use ruprogress_mcp.RateLimit.Buckets.{Bucket, Decision, Rate, check}
use ruprogress_mcp.Std.Map.{HashMap}
use Prim.Native.Nat.{bit_and}
use ruprogress_mcp.Base.{
  Eq, List, Option, [], if◌then◌else◌, leb, max, min, none, some, suc, zero, ℕ, ◌+◌, ◌-◌, ◌/◌, ◌∷◌,
}

abbrev pub min_keys_per_shard : ℕ
min_keys_per_shard = 64

abbrev pub max_shards : ℕ
max_shards = 16

-- `usize::next_power_of_two`, of a number up to 16.
abbrev pub next_power_of_two : ℕ → ℕ
next_power_of_two n =
    if leb n 1 then 1 else if leb n 2 then 2 else if leb n 4 then 4 else if leb n 8 then 8 else 16

unfoldable pub shard_count : ℕ → ℕ
shard_count max_keys = next_power_of_two (max 1 (min (max_keys / min_keys_per_shard) max_shards))

-- `usize::div_ceil`, of a number above 0.
abbrev pub div_ceil : ℕ → ℕ → ℕ
div_ceil n d = (n + (d - 1)) / d

pub record Limiter (K F : Type 0) : Type 0 where
  pub shards : List (HashMap K (Bucket F))
  pub shard_mask : ℕ
  pub rate : Rate F
  pub per_shard_max_keys : ℕ

abbrev pub repeat : {A : Type 0} → ℕ → A → List A
repeat zero a = []
repeat (suc n) a = a ∷ repeat n a

module _ {K F : Type 0} ⦃f : Float F⦄ ⦃e : Eq K⦄ where
  -- `Limiter::new`.
  unfoldable pub new_limiter : ℕ → ℕ → ℕ → Limiter K F
  unfolding shard_count
  new_limiter rps burst max_keys = record {
    shards = repeat (shard_count max_keys) [];
    shard_mask = shard_count max_keys - 1;
    rate = record { capacity = f.of_u32 burst; refill_per_sec = f.of_u32 rps };
    per_shard_max_keys = div_ceil max_keys (shard_count max_keys);
  }

  -- A call of the shard at an index; none where the index is out of bounds, and the code panics.
  unfoldable pub check_at :
      Rate F
      → ℕ
      → K
      → ℕ
      → ℕ
      → List (HashMap K (Bucket F))
      → Option (Decision × List (HashMap K (Bucket F)))
  unfolding check
  check_at rate per_shard_max_keys key now index [] = none
  check_at rate per_shard_max_keys key now zero (shard ∷ shards) =
      let (decision, shard') = check rate per_shard_max_keys key now shard in
      some (decision, shard' ∷ shards)
  check_at rate per_shard_max_keys key now (suc index) (shard ∷ shards) =
      elim (check_at rate per_shard_max_keys key now index shards) [
        | none ↦ none
        | some (decision, shards') ↦ some (decision, shard ∷ shards')
      ]

  -- `Limiter::check`; the standard library's hasher is the first argument.
  unfoldable pub check_limiter : (K → ℕ) → K → ℕ → Limiter K F → Option (Decision × Limiter K F)
  unfolding check_at
  check_limiter hash key now l =
      elim (check_at l.rate l.per_shard_max_keys key now (bit_and (hash key) l.shard_mask)
        l.shards) [
          | none ↦ none
          | some (decision, shards) ↦ some (decision, record l { shards = shards })
        ]

  -- The calls that a limiter is asked for, one after the other: each holds its shard's lock.
  unfoldable pub check_all : (K → ℕ) → List (K × ℕ) → Limiter K F → Option (Limiter K F)
  unfolding check_limiter
  check_all hash [] l = some l
  check_all hash ((key, now) ∷ calls) l = elim (check_limiter hash key now l) [
    | none ↦ none
    | some (decision, l') ↦ check_all hash calls l'
  ]
