-- ===== src/Attachments/Quota.antt =====
-- attachments.rs and tools/files.rs: what each step of a download does to the quota.
use ruprogress_mcp.Attachments.Sizes.{IsSmall, insert-IsSmall}
use ruprogress_mcp.Attachments.Store.{
  AttachmentStore, allocate, QuotaGuard, commit, committed_locked, drop_quota, extend, projected,
  reserve, saturating_add, stored_file, total_size, try_reserve, with_in_flight,
}
use ruprogress_mcp.Attachments.Downloads.{
  Attachment, Download, Stepped, begin, begun, fail_step, finish, finish_step, receive,
  receive_step, refuse, still, write_chunk,
}
use ruprogress_mcp.RedmineClient.Paging.{u64_max}
use ruprogress_mcp.Std.Clock.{Instant}
use ruprogress_mcp.Base.{
  Bool, Bool-cases, Bytes, Option, arith, bytes_eq, false, inl, inr, ltb, ltb→lt, subst, none, refl,
  some, true, ℕ, ◌%◌, ◌+◌, ◌-◌, ◌<◌, ◌^◌, ◌≡◌, ◌≤◌,
}

-- The store counts what is reserved as in flight, and with it keeps to its quota.
pub record IsWithin (cap limit : ℕ) (store : AttachmentStore) (reserved : ℕ) : Type 0 where
  pub accounted : store.inner.in_flight ≡ reserved
  pub within : total_size store.inner.entries + reserved ≤ cap
  pub same_cap : store.max_store_bytes ≡ cap
  pub same_limit : store.max_download_bytes ≡ limit
  pub small : IsSmall limit store.inner.entries

-- A download that runs has reserved what it wrote, and its guard is armed.
abbrev pub IsCovered : ℕ → Download → Type 0
IsCovered limit d =
    (d.reservation.quota.armed ≡ true)
    × (d.written ≤ d.reservation.quota.bytes)
    × (d.written ≤ limit)

small_remainder : (n cap : ℕ) → cap < u64_max → n ≤ cap → n % 2 ^ 64 ≡ n
small_remainder n cap h below = omega (arith, h, below)

ltb-ge : (a b : ℕ) → ltb a b ≡ false → b ≤ a
ltb-ge a b h = ground (arith, h)

-- A download after a chunk that made its reservation grow.
abbrev grown : Download → ℕ → Download
grown d size =
    let written' = saturating_add d.written size in
    let quota = d.reservation.quota in
    record d {
      written = written';
      reservation = record d.reservation {
        quota = record quota { bytes = saturating_add quota.bytes (written' - quota.bytes) };
      };
    }

grown_covers :
    (d : Download) (size : ℕ) → (grown d size).written ≤ (grown d size).reservation.quota.bytes
grown_covers d size = omega arith

grown_bytes :
    (d : Download) (size rest : ℕ)
    → d.reservation.quota.bytes < saturating_add d.written size
    → d.reservation.quota.bytes + rest + (saturating_add d.written size - d.reservation.quota.bytes)
      ≡ (grown d size).reservation.quota.bytes + rest
grown_bytes d size rest h = omega (arith, h)

swapped : (a b : ℕ) → a + b ≡ b + a
swapped a b = omega arith

module _ (cap limit : ℕ) (bounded : cap < u64_max) where
  projected_lem :
      (store : AttachmentStore) (reserved n : ℕ)
      → IsWithin cap limit store reserved
      → ltb store.max_store_bytes (projected store n) ≡ false
      → (total_size store.inner.entries + (reserved + n) ≤ cap)
        × (saturating_add store.inner.in_flight n ≡ reserved + n)
  unfolding projected committed_locked
  projected_lem store reserved n w h = ground (
    arith,
    bounded,
    w.within,
    w.accounted,
    w.same_cap,
    h,
    small_remainder (total_size store.inner.entries) cap bounded (omega (arith, w.within)),
  )

  reserved_more :
      (store : AttachmentStore) (reserved n : ℕ)
      → IsWithin cap limit store reserved
      → ltb store.max_store_bytes (projected store n) ≡ false
      → IsWithin cap limit
          (with_in_flight store (saturating_add store.inner.in_flight n))
          (reserved + n)
  reserved_more store reserved n w h =
      let (room, exact) = projected_lem store reserved n w h in
      record {
        accounted = exact;
        within = room;
        same_cap = w.same_cap;
        same_limit = w.same_limit;
        small = w.small;
      }

  -- Dropping a download's guard gives back what the download reserved.
  drop_quota-IsWithin :
      (store : AttachmentStore) (quota : QuotaGuard) (rest : ℕ)
      → quota.armed ≡ true
      → IsWithin cap limit store (quota.bytes + rest)
      → IsWithin cap limit (drop_quota store quota) rest
  unfolding drop_quota
  drop_quota-IsWithin store quota rest armed w = rw (armed) (record {
    accounted = omega (arith, w.accounted);
    within = omega (arith, w.within);
    same_cap = w.same_cap;
    same_limit = w.same_limit;
    small = w.small;
  })

  -- What a step leaves of a download, and of the store, beside what others reserved.
  abbrev pub IsKept : ℕ → Stepped → Type 0
  IsKept rest (store, none) = IsWithin cap limit store rest
  IsKept rest (store, some d) =
      IsCovered limit d × IsWithin cap limit store (d.reservation.quota.bytes + rest)

  -- A step that keeps the account, whatever others have reserved.
  abbrev pub KeepsAccount : (AttachmentStore → Download → Stepped) → Type 0
  KeepsAccount f =
      (store : AttachmentStore) (d : Download) (rest : ℕ)
      → IsCovered limit d
      → IsWithin cap limit store (d.reservation.quota.bytes + rest)
      → IsKept rest (f store d)

  pub fail_step-account : KeepsAccount fail_step
  unfolding fail_step
  fail_step-account store d rest c w = drop_quota-IsWithin store d.reservation.quota rest c.0 w

  pub finish_step-account :
      (expires_at : ℕ) (created_at : Instant) → KeepsAccount (finish_step expires_at created_at)
  unfolding finish_step finish commit stored_file
  finish_step-account expires_at created_at store d rest (armed, wrote, little) w =
      let stored =
        stored_file d.reservation d.attachment.attachment_type d.written expires_at created_at in
      let (smaller, less) =
        insert-IsSmall limit stored.uuid stored store.inner.entries little w.small in
      record {
        accounted = omega (arith, w.accounted);
        within = omega (arith, w.within, less, wrote);
        same_cap = w.same_cap;
        same_limit = w.same_limit;
        small = smaller;
      }

  write_chunk-account :
      (store : AttachmentStore) (d : Download) (wrote : Bool) (rest : ℕ)
      → IsCovered limit d
      → IsWithin cap limit store (d.reservation.quota.bytes + rest)
      → IsKept rest (still (write_chunk store d wrote))
  unfolding write_chunk refuse fail_step
  write_chunk-account store d true rest c w = (c, w)
  write_chunk-account store d false rest c w = fail_step-account store d rest c w

  pub receive_step-account : (size : ℕ) (wrote : Bool) → KeepsAccount (receive_step size wrote)
  unfolding receive_step receive extend refuse drop_quota
  receive_step-account size wrote store d rest (armed, covered, little) w =
      let quota = d.reservation.quota in
      let written' = saturating_add d.written size in
      let deficit = written' - quota.bytes in
      elim (Bool-cases (ltb store.max_download_bytes written')) [
        | inl large ↦ rw (large) (drop_quota-IsWithin store quota rest armed w)
        | inr fits ↦ elim (Bool-cases (ltb quota.bytes written')) [
          | inr enough ↦
              rw (fits, enough)
                (write_chunk-account store (record d { written = written' }) wrote rest
                  (armed, ltb-ge quota.bytes written' enough, ground (arith, fits, w.same_limit)) w)
          | inl short ↦ elim (Bool-cases (ltb store.max_store_bytes (projected store deficit))) [
            | inl full_store ↦
                rw (fits, short, full_store) (drop_quota-IsWithin store quota rest armed w)
            | inr room ↦
                rw (fits, short, room)
                  (write_chunk-account
                    (with_in_flight store (saturating_add store.inner.in_flight deficit))
                    (grown d size) wrote rest
                    (armed, grown_covers d size, ground (arith, fits, w.same_limit))
                    (subst
                      (IsWithin cap limit
                        (with_in_flight store (saturating_add store.inner.in_flight deficit)))
                      (grown_bytes d size rest (ltb→lt quota.bytes written' short))
                      (reserved_more store (quota.bytes + rest) deficit w room)))
          ]
        ]
      ]

  -- What a try for a quota leaves.
  abbrev IsTried : ℕ → AttachmentStore × Option QuotaGuard → Type 0
  IsTried rest (store, none) = IsWithin cap limit store rest
  IsTried rest (store, some quota) =
      (quota.armed ≡ true) × IsWithin cap limit store (quota.bytes + rest)

  try_reserve-account :
      (store : AttachmentStore) (size rest : ℕ)
      → IsWithin cap limit store rest
      → IsTried rest (try_reserve store size)
  unfolding try_reserve
  try_reserve-account store size rest w =
      elim (Bool-cases (ltb store.max_store_bytes (projected store size))) [
        | inl full_store ↦ rw (full_store) w
        | inr room ↦ rw (room) (
          refl,
          subst
              (IsWithin cap limit
                (with_in_flight store (saturating_add store.inner.in_flight size)))
              (swapped rest size) (reserved_more store rest size w room),
        )
      ]

  allocate-account :
      (tried : AttachmentStore × Option QuotaGuard) (attachment : Attachment) (uuid : Bytes)
      (created : Bool) (rest : ℕ)
      → IsTried rest tried
      → IsKept rest (
          still (
            begun attachment
              (allocate tried attachment.id attachment.attachment_name uuid created)))
  unfolding allocate
  allocate-account (store, none) attachment uuid created rest w = w
  allocate-account (store, some quota) attachment uuid true rest (armed, w) =
      ((armed, omega arith, omega arith), w)
  allocate-account (store, some quota) attachment uuid false rest (armed, w) =
      drop_quota-IsWithin store quota rest armed w

  pub begin-account :
      (store : AttachmentStore) (attachment : Attachment) (uuid : Bytes) (created : Bool) (rest : ℕ)
      → IsWithin cap limit store rest
      → IsKept rest (still (begin store attachment uuid created))
  unfolding begin reserve
  begin-account store attachment uuid created rest w =
      elim (Bool-cases (ltb store.max_download_bytes attachment.filesize)) [
        | inl large ↦ rw (large) w
        | inr fits ↦ rw (fits) (
            allocate-account (try_reserve store attachment.filesize) attachment uuid created rest
              (try_reserve-account store attachment.filesize rest w))
      ]
