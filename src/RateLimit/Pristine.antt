-- ===== src/RateLimit/Pristine.antt =====
-- ratelimit.rs: what eviction cannot change, and what the decisions report.
use ruprogress_mcp.RateLimit.Float.{Float}
use ruprogress_mcp.RateLimit.Buckets.{
  Bucket, Decision, Rate, allow, deny, is_pristine, new_bucket, refilled, retry_after_secs,
  take_token,
}
use ruprogress_mcp.Base.{
  Bool, Bool-cases, List, [], arith, false, if◌then◌else◌, inl, inr, not, refl, true, ℕ, ◌+◌, ◌-◌,
  ◌∷◌, ◌≡◌, ◌≤◌, ◌∙◌, ap₂, sym, subst,
}

-- What the refill relies on, of the floating-point numbers that stand for a rate: a full bucket
-- stays full, and more time never brings fewer tokens.
pub record IsRefill {F : Type 0} ⦃f : Float F⦄ (rate : Rate F) : Type 0 where
  pub fmin_capped : (x : F) → f.ge x rate.capacity ≡ true → f.fmin x rate.capacity ≡ rate.capacity
  pub stays_full :
      (t : ℕ)
      → f.ge (f.add rate.capacity (f.mul (f.as_secs t) rate.refill_per_sec)) rate.capacity ≡ true
  pub ge-later :
      (x : F) (t t' : ℕ)
      → t ≤ t'
      → f.ge (f.add x (f.mul (f.as_secs t) rate.refill_per_sec)) rate.capacity ≡ true
      → f.ge (f.add x (f.mul (f.as_secs t') rate.refill_per_sec)) rate.capacity ≡ true

module _ {F : Type 0} ⦃f : Float F⦄ where
  -- The tokens that `take` decides by.
  topped_up : Rate F → Bucket F → ℕ → F
  topped_up rate b now = f.fmin (f.add b.tokens (refilled rate b now)) rate.capacity

  -- `take`, by the tokens after the refill.
  decide : Rate F → F → Bool → ℕ → Decision × Bucket F
  decide rate tokens limited now =
      if f.ge tokens (f.of_u32 1)
      then (
        allow limited,
        record { tokens = f.sub tokens (f.of_u32 1); updated_at = now; limited = false },
      )
      else (
        deny (retry_after_secs rate tokens) (not limited),
        record { tokens = tokens; updated_at = now; limited = true },
      )

  take_token-decide :
      (rate : Rate F) (b : Bucket F) (now : ℕ)
      → take_token rate b now ≡ decide rate (topped_up rate b now) b.limited now
  unfolding take_token topped_up decide
  take_token-decide rate b now = refl

-- A bucket that is pristine at one time can be evicted: at that time or at any later one a call
-- on it decides what a call on a new bucket decides, and leaves the same bucket.
pub is_pristine-take_token :
    {F : Type 0} ⦃f : Float F⦄ (rate : Rate F) (b : Bucket F) (now later : ℕ)
    → IsRefill rate
    → is_pristine rate now b ≡ true
    → now ≤ later
    → take_token rate b later ≡ take_token rate (new_bucket rate later) later
unfolding is_pristine new_bucket refilled topped_up
is_pristine-take_token ⦃f = f⦄ rate b now later r pristine order =
    let full : f.ge (f.add b.tokens (f.mul (f.as_secs (now - b.updated_at)) rate.refill_per_sec))
          rate.capacity
        ≡ true =
      ground (arith, pristine) in
    let fuller =
      r.ge-later b.tokens (now - b.updated_at) (later - b.updated_at) (omega (arith, order)) full in
    take_token-decide rate b later
    ∙ ap₂ (λ x l. decide rate x l later)
        (r.fmin_capped _ fuller ∙ sym (r.fmin_capped _ (r.stays_full (later - later))))
        (ground (arith, pristine))
    ∙ sym (take_token-decide rate (new_bucket rate later) later)

-- The calls on one bucket, at the times of a list: what they decide, and the bucket after them.
pub take_all : {F : Type 0} ⦃f : Float F⦄ → Rate F → Bucket F → List ℕ → List Decision × Bucket F
take_all rate b [] = ([], b)
take_all rate b (now ∷ times) =
    let (decision, b') = take_token rate b now in
    let (decisions, last) = take_all rate b' times in (decision ∷ decisions, last)

-- Whether a decision reports that a run of denials starts, or that one ended, as a count.
abbrev pub started : Decision → ℕ
started (allow recovered) = 0
started (deny secs newly_limited) = if newly_limited then 1 else 0

abbrev pub ended : Decision → ℕ
ended (allow recovered) = if recovered then 1 else 0
ended (deny secs newly_limited) = 0

abbrev pub starts : List Decision → ℕ
starts [] = 0
starts (d ∷ ds) = started d + starts ds

abbrev pub ends : List Decision → ℕ
ends [] = 0
ends (d ∷ ds) = ended d + ends ds

abbrev pub is_open : Bool → ℕ
is_open limited = if limited then 1 else 0

decide-started :
    {F : Type 0} ⦃f : Float F⦄ (rate : Rate F) (tokens : F) (limited : Bool) (now : ℕ)
    → started (decide rate tokens limited now).0 + is_open limited
      ≡ ended (decide rate tokens limited now).0
        + is_open (decide rate tokens limited now).1.limited
unfolding decide
decide-started ⦃f = f⦄ rate tokens limited now = elim (Bool-cases (f.ge tokens (f.of_u32 1))) [
  | inl enough ↦ rw (decide, enough) (omega arith)
  | inr short ↦ rw (decide, short) (denied limited)
]
  where
    denied : (limited : Bool) → (if not limited then 1 else 0) + is_open limited ≡ 0 + 1
    denied true = omega arith
    denied false = omega arith

take_token-started :
    {F : Type 0} ⦃f : Float F⦄ (rate : Rate F) (b : Bucket F) (now : ℕ)
    → started (take_token rate b now).0 + is_open b.limited
      ≡ ended (take_token rate b now).0 + is_open (take_token rate b now).1.limited
take_token-started rate b now =
    subst (λ r. started r.0 + is_open b.limited ≡ ended r.0 + is_open r.1.limited)
      (sym (take_token-decide rate b now))
      (decide-started rate (topped_up rate b now) b.limited now)

-- The reports of a bucket's calls alternate: the runs of denials that are reported to start are
-- those that are reported to end, but for one that is open when the calls begin or when they are
-- over.
pub take_all-starts :
    {F : Type 0} ⦃f : Float F⦄ (rate : Rate F) (b : Bucket F) (times : List ℕ)
    → starts (take_all rate b times).0 + is_open b.limited
      ≡ ends (take_all rate b times).0 + is_open (take_all rate b times).1.limited
unfolding take_all
take_all-starts rate b [] = refl
take_all-starts rate b (now ∷ times) =
    omega
      (arith, take_token-started rate b now, take_all-starts rate (take_token rate b now).1 times)
