-- ===== src/Attachments/Within.antt =====
-- attachments.rs and tools/files.rs: the store keeps to its quota, whatever happens to downloads.
use ruprogress_mcp.Attachments.Sizes.{IsSmall, remove-IsSmall, remove_each-IsSmall}
use ruprogress_mcp.Attachments.Quota.{
  IsCovered, IsKept, IsWithin, KeepsAccount, begin-account, fail_step-account, finish_step-account,
  receive_step-account,
}
use ruprogress_mcp.Attachments.Store.{
  AttachmentStore, StoredFile, get, is_expired, new_store, remove_each, sweep_expired, total_size,
  with_entries,
}
use ruprogress_mcp.Attachments.Downloads.{
  Download, Event, Running, Stepped, at_place, begin, begins, behind, fail_step, fails, fetches,
  finish_step, finishes, receive_step, receives, resume, run, still, sweeps,
}
use ruprogress_mcp.RedmineClient.Paging.{u64_max}
use ruprogress_mcp.Std.Clock.{Instant}
use ruprogress_mcp.Std.Map.{HashMap}
use ruprogress_mcp.Std.Map as Map
use ruprogress_mcp.Base.{
  Bool-cases, Bytes, List, [], arith, bytes_eq, inl, inr, subst, none, refl, some, suc, zero, ℕ,
  ◌+◌, ◌<◌, ◌∷◌, ◌≡◌, ◌≤◌,
}

-- What downloads that run have reserved.
abbrev pub held : List Download → ℕ
held [] = 0
held (d ∷ ds) = d.reservation.quota.bytes + held ds

abbrev pub AllCovered : ℕ → List Download → Type 0
AllCovered limit [] = Unit
AllCovered limit (d ∷ ds) = IsCovered limit d × AllCovered limit ds

module _ (cap limit : ℕ) (bounded : cap < u64_max) where
  -- The account of the store with all the downloads that run.
  abbrev IsSound : ℕ → Running → Type 0
  IsSound rest (store, ds) = AllCovered limit ds × IsWithin cap limit store (held ds + rest)

  resume-IsSound :
      (stepped : Stepped) (ds : List Download) (rest : ℕ)
      → IsKept cap limit bounded (held ds + rest) stepped
      → AllCovered limit ds
      → IsSound rest (resume stepped ds)
  resume-IsSound (store, none) ds rest w cs = (cs, w)
  resume-IsSound (store, some d) ds rest (c, w) cs =
      ((c, cs), subst (IsWithin cap limit store) (omega arith) w)

  at_place-IsSound :
      (f : AttachmentStore → Download → Stepped) (n : ℕ) (store : AttachmentStore)
      (ds : List Download) (rest : ℕ)
      → KeepsAccount cap limit bounded f
      → IsSound rest (store, ds)
      → IsSound rest (at_place f n store ds)
  unfolding at_place
  at_place-IsSound f n store [] rest k w = w
  at_place-IsSound f zero store (d ∷ ds) rest k ((c, cs), w) =
      resume-IsSound (f store d) ds rest
        (k store d (held ds + rest) c (subst (IsWithin cap limit store) (omega arith) w)) cs
  at_place-IsSound f (suc n) store (d ∷ ds) rest k ((c, cs), w) =
      behind-IsSound (at_place f n store ds) (
        at_place-IsSound f n store ds (d.reservation.quota.bytes + rest) k
          (cs, subst (IsWithin cap limit store) (omega arith) w))
    where
      behind-IsSound :
          (r : Running) → IsSound (d.reservation.quota.bytes + rest) r → IsSound rest (behind d r)
      behind-IsSound (store', ds') (cs', w') =
          ((c, cs'), subst (IsWithin cap limit store') (omega arith) w')

  with_entries-IsWithin :
      (store : AttachmentStore) (entries : HashMap Bytes StoredFile) (reserved : ℕ)
      → IsSmall limit entries × (total_size entries ≤ total_size store.inner.entries)
      → IsWithin cap limit store reserved
      → IsWithin cap limit (with_entries store entries) reserved
  with_entries-IsWithin store entries reserved (smaller, less) w = record {
    accounted = w.accounted;
    within = omega (arith, w.within, less);
    same_cap = w.same_cap;
    same_limit = w.same_limit;
    small = smaller;
  }

  get-IsWithin :
      (store : AttachmentStore) (id : Bytes) (now : Instant) (reserved : ℕ)
      → IsWithin cap limit store reserved
      → IsWithin cap limit (get store id now).0 reserved
  unfolding get
  get-IsWithin store id now reserved w =
      elim (Bool-cases (is_expired store now (Map.get id store.inner.entries))) [
        | inl expired ↦ rw (expired) (
            with_entries-IsWithin store (Map.remove id store.inner.entries) reserved
              (remove-IsSmall limit id store.inner.entries w.small) w)
        | inr fresh ↦ rw (fresh) w
      ]

  run-IsSound : (events : List Event) (r : Running) → IsSound 0 r → IsSound 0 (run events r)
  unfolding run sweep_expired
  run-IsSound [] r w = w
  run-IsSound (begins attachment uuid created ∷ events) (store, ds) (cs, w) =
      run-IsSound events (resume (still (begin store attachment uuid created)) ds) (
        resume-IsSound (still (begin store attachment uuid created)) ds 0
          (begin-account cap limit bounded store attachment uuid created (held ds + 0) w) cs)
  run-IsSound (receives n size wrote ∷ events) (store, ds) w =
      run-IsSound events (at_place (receive_step size wrote) n store ds) (
        at_place-IsSound (receive_step size wrote) n store ds 0
          (receive_step-account cap limit bounded size wrote) w)
  run-IsSound (fails n ∷ events) (store, ds) w =
      run-IsSound events (at_place fail_step n store ds)
        (at_place-IsSound fail_step n store ds 0 (fail_step-account cap limit bounded) w)
  run-IsSound (finishes n expires_at created_at ∷ events) (store, ds) w =
      run-IsSound events (at_place (finish_step expires_at created_at) n store ds) (
        at_place-IsSound (finish_step expires_at created_at) n store ds 0
          (finish_step-account cap limit bounded expires_at created_at) w)
  run-IsSound (fetches id now ∷ events) (store, ds) (cs, w) =
      run-IsSound events ((get store id now).0, ds) (cs, get-IsWithin store id now (held ds + 0) w)
  run-IsSound (sweeps uuids ∷ events) (store, ds) (cs, w) =
      run-IsSound events (sweep_expired store uuids, ds)
        (
          cs,
          with_entries-IsWithin store (remove_each uuids store.inner.entries) (held ds + 0)
              (remove_each-IsSmall limit uuids store.inner.entries w.small) w,
        )

-- The store keeps to its quota, whatever downloads begin, grow, fail and end in whatever order
-- between lookups and sweeps, if the quota is below the largest `u64`: what is in flight is what
-- the downloads that run have reserved, so that none of it is left once they have ended; with it
-- the stored files fit the quota; and no stored file is larger than a download may be.
pub run-within :
    (dir : Bytes) (expires_after limit quota : ℕ) (events : List Event)
    → quota < u64_max
    → (((run events (new_store dir expires_after limit quota, [])).0.inner.in_flight
          ≡ held (run events (new_store dir expires_after limit quota, [])).1)
        × (total_size (run events (new_store dir expires_after limit quota, [])).0.inner.entries
              + (run events (new_store dir expires_after limit quota, [])).0.inner.in_flight
            ≤ quota)
        × IsSmall limit (run events (new_store dir expires_after limit quota, [])).0.inner.entries)
run-within dir expires_after limit quota events bounded =
    let start : Running = (new_store dir expires_after limit quota, []) in
    let (covered, w) = run-IsSound quota limit bounded events start (
      tt,
      record {
        accounted = refl;
        within = omega arith;
        same_cap = refl;
        same_limit = refl;
        small = tt;
      },
    ) in
    (omega (arith, w.accounted), omega (arith, w.within, w.accounted), w.small)
