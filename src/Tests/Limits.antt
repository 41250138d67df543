-- ===== src/Tests/Limits.antt =====
-- Answers under the caps, text in its boundary, and buckets of tokens.
use ruprogress_mcp.Tools.Caps.{
  Json, Node, OutputCaps, Value, apply_caps, array, fields, leaf, object, other, put_array,
  top_level_array,
}
use ruprogress_mcp.Tools.Caps.Capped.{apply_caps-longest}
use ruprogress_mcp.Tools.Caps.Longest.{IsMonotone}
use ruprogress_mcp.Tools.Render.{sanitize}
use ruprogress_mcp.Tools.Render.Stripped.{Piece, closes, opens, plain}
use ruprogress_mcp.RateLimit.Float.{Float}
use ruprogress_mcp.RateLimit.Buckets.{Bucket, Rate, is_pristine, new_bucket, take_token}
use ruprogress_mcp.RateLimit.Capacity.{check_all-within}
use ruprogress_mcp.RateLimit.Limiter.{Limiter, check_all, div_ceil, new_limiter, shard_count}
use ruprogress_mcp.RateLimit.Pristine.{
  IsRefill, ends, is_open, is_pristine-take_token, starts, take_all, take_all-starts,
}
use ruprogress_mcp.Std.Map as Map
use ruprogress_mcp.Base.{
  All, Bytes, List, [], arith, bytes_beq, codes, false, if◌then◌else◌, leb, length, length-append,
  ltb, max, min, nat_eq, refl, some, suc, take, true, ℕ, ◌*◌, ◌++◌, ◌+◌, ◌-◌, ◌/◌, ◌^◌, ◌∷◌, ◌≡◌,
  ◌≤◌,
}

-- What is written is one byte for each item of the arrays, and one for every other field.
abbrev written_len : List (Bytes × Node ℕ) → ℕ
written_len [] = 0
written_len ((k, array xs) ∷ fs) = length xs + written_len fs
written_len ((k, fields m) ∷ fs) = suc (length m + written_len fs)
written_len ((k, leaf j) ∷ fs) = suc (written_len fs)

abbrev value_len : Value ℕ → ℕ
value_len (object fs) = written_len fs
value_len (other j) = 1

abbrev toy_json : Json ℕ
toy_json = record {
  of_bool = λ b. if b then 1 else 0;
  of_string = λ s. length s;
  serialized_len = value_len;
}

written_len-put :
    (fs : List (Bytes × Node ℕ)) (xs : List ℕ) (x : ℕ)
    → written_len (ruprogress_mcp.Tools.Caps.put_first xs fs)
      ≤ written_len (ruprogress_mcp.Tools.Caps.put_first (xs ++ x ∷ []) fs)
unfolding ruprogress_mcp.Tools.Caps.put_first
written_len-put [] xs x = omega arith
written_len-put ((k, array ys) ∷ fs) xs x = omega (arith, length-append xs (x ∷ []))
written_len-put ((k, fields m) ∷ fs) xs x = omega (arith, written_len-put fs xs x)
written_len-put ((k, leaf j) ∷ fs) xs x = omega (arith, written_len-put fs xs x)

toy-IsMonotone : IsMonotone toy_json
unfolding put_array
toy-IsMonotone (object fs) xs x = written_len-put fs xs x
toy-IsMonotone (other j) xs x = omega arith

abbrev answer : Value ℕ
answer = object (
    (codes "issues", array (1 ∷ 2 ∷ 3 ∷ 4 ∷ 5 ∷ []))
    ∷ (codes "pagination", fields ((codes "truncated", 0) ∷ []))
    ∷ [])

abbrev caps : OutputCaps
caps = record { max_items = 4; max_bytes = 5 }

-- Three items fit with the pagination of two; the hint that is added afterwards does not count.
capped :
    apply_caps toy_json caps answer
    ≡ some (
        object (
          (codes "issues", array (1 ∷ 2 ∷ 3 ∷ []))
          ∷ (codes "pagination", fields ((codes "truncated", 1) ∷ (codes "hint", 113) ∷ []))
          ∷ []))
unfolding apply_caps Map.get bytes_beq Map.insert
capped = refl

found_items : top_level_array answer ≡ some (1 ∷ 2 ∷ 3 ∷ 4 ∷ 5 ∷ [])
unfolding top_level_array
found_items = refl

two_fit : toy_json.serialized_len (put_array (1 ∷ 2 ∷ []) answer) ≤ 5
unfolding put_array
two_fit = omega arith

apply_caps-longest_example :
    (out : Value ℕ) × (kept : List ℕ) × (apply_caps toy_json caps answer ≡ some out)
    × (top_level_array out ≡ some kept)
    × (kept ≡ take (length kept) (1 ∷ 2 ∷ 3 ∷ 4 ∷ 5 ∷ []))
    × (length kept ≤ 4)
    × (2 ≤ length kept)
    × (toy_json.serialized_len (put_array kept answer) ≤ 5)
apply_caps-longest_example =
    apply_caps-longest toy_json caps answer (1 ∷ 2 ∷ 3 ∷ 4 ∷ 5 ∷ []) 2 toy-IsMonotone found_items
      (omega arith) (omega arith) two_fit

-- A control character that is taken out leaves a delimiter behind.
reassembled : sanitize (codes "<<<untrus" ++ 1 ∷ codes "ted:") ≡ codes "<<<untrusted:"
unfolding sanitize bytes_beq
reassembled = refl

-- So does a delimiter that is taken out of the midst of another.
nested : sanitize (codes "<<<untrus<<<untrusted:ted:") ≡ codes "<<<untrusted:"
unfolding sanitize bytes_beq
nested = refl

abbrev pieces : List Piece
pieces = plain (codes "a") ∷ closes ∷ opens ∷ plain (1 ∷ codes "b>>>") ∷ opens ∷ []

-- Whole billionths of a token stand for the numbers.
instance abbrev toy_float : Float ℕ
toy_float = record {
  of_u32 = λ n. n * 1000000000;
  as_secs = λ t. t;
  add = λ x y. x + y;
  sub = λ x y. x - y;
  mul = λ x y. x * (y / 1000000000);
  div = λ x y. x / (y / 1000000000);
  fmin = λ x y. min x y;
  ge = λ x y. leb y x;
  gt = λ x y. ltb y x;
  infinity = 2 ^ 64;
  clamped_ceil = λ x. max 1 (min x (2 ^ 64 - 1));
}

abbrev rate : Rate ℕ
rate = record { capacity = 2000000000; refill_per_sec = 1000000000 }

rate-IsRefill : IsRefill rate
rate-IsRefill = record {
  fmin_capped = λ x h. ground (arith, h);
  stays_full = λ t. ground arith;
  ge-later = λ x t t' order h. ground (arith, order, h);
}

abbrev rested : Bucket ℕ
rested = record { tokens = 1000000000; updated_at = 0; limited = false }

rested-pristine : is_pristine rate 1000000000 rested ≡ true
unfolding is_pristine
rested-pristine = refl

is_pristine-take_token_example :
    take_token rate rested 2000000000 ≡ take_token rate (new_bucket rate 2000000000) 2000000000
is_pristine-take_token_example =
    is_pristine-take_token rate rested 1000000000 2000000000 rate-IsRefill rested-pristine
      (omega arith)

take_all-starts_example :
    starts (take_all rate rested (0 ∷ 0 ∷ 1000000000 ∷ [])).0 + is_open false
    ≡ ends (take_all rate rested (0 ∷ 0 ∷ 1000000000 ∷ [])).0
      + is_open (take_all rate rested (0 ∷ 0 ∷ 1000000000 ∷ [])).1.limited
take_all-starts_example = take_all-starts rate rested (0 ∷ 0 ∷ 1000000000 ∷ [])

check_all-within_example :
    (l : Limiter ℕ ℕ) × (check_all (λ k. k) ((1, 0) ∷ (2, 0) ∷ (3, 0) ∷ []) (new_limiter 1 1 2)
      ≡ some l)
    × (length l.shards ≡ shard_count 2)
    × All (λ m. Map.len m ≤ max (div_ceil 2 (shard_count 2)) 1) l.shards
check_all-within_example = check_all-within (λ k. k) 1 1 2 ((1, 0) ∷ (2, 0) ∷ (3, 0) ∷ [])
