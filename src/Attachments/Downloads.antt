-- ===== src/Attachments/Downloads.antt =====
-- tools/files.rs: get_redmine_attachment and download_and_commit, cut where they await.
use ruprogress_mcp.Attachments.Store.{
  AttachmentStore, Reservation, ReserveError, StoredFile, commit, drop_quota, extend, full, get, io,
  reserve, saturating_add, sweep_expired,
}
use ruprogress_mcp.Std.Clock.{Instant}
use ruprogress_mcp.Base.{
  Bool, Bytes, List, Option, Result, [], err, if◌then◌else◌, ltb, none, not, ok, some, suc, zero, ℕ,
  ◌-◌, ◌∷◌,
}

-- Redmine's answer about an attachment, as far as a download reads it.
pub record Attachment : Type 0 where
  pub id : ℕ
  pub attachment_name : Bytes
  pub filesize : ℕ
  pub attachment_type : Option Bytes

-- A download that runs: its reservation, and what it has written.
pub record Download : Type 0 where
  pub attachment : Attachment
  pub reservation : Reservation
  pub written : ℕ

pub data Refusal : Type 0 where
  file_too_large : ℕ → Refusal
  store_full : Refusal
  local_storage_error : Refusal
  upstream_failed : Refusal

abbrev pub refusal_of : ReserveError → Refusal
refusal_of full = store_full
refusal_of io = local_storage_error

-- A download from its reservation on.
abbrev pub begun :
    Attachment
    → AttachmentStore × Result Reservation ReserveError
    → AttachmentStore × Result Download Refusal
begun attachment (store, ok reservation) =
    (store, ok (record { attachment = attachment; reservation = reservation; written = 0 }))
begun attachment (store, err e) = (store, err (refusal_of e))

-- The size check and the reservation. After `store_full` the tool sweeps, and comes here once more.
unfoldable pub begin :
    AttachmentStore → Attachment → Bytes → Bool → AttachmentStore × Result Download Refusal
unfolding reserve
begin store attachment uuid created =
    if ltb store.max_download_bytes attachment.filesize
    then (store, err (file_too_large store.max_download_bytes))
    else begun attachment
        (reserve store attachment.id attachment.attachment_name attachment.filesize uuid created)

-- A download that ends early drops its reservation: `abort` only removes files.
unfoldable pub refuse :
    AttachmentStore → Download → Refusal → AttachmentStore × Result Download Refusal
unfolding drop_quota
refuse store d e = (drop_quota store d.reservation.quota, err e)

-- A chunk is written to the file, or the write fails.
unfoldable pub write_chunk :
    AttachmentStore → Download → Bool → AttachmentStore × Result Download Refusal
unfolding refuse
write_chunk store d wrote = if wrote then (store, ok d) else refuse store d local_storage_error

-- The loop's body in `download_and_commit`, for a chunk of `size` bytes.
unfoldable pub receive :
    AttachmentStore → Download → ℕ → Bool → AttachmentStore × Result Download Refusal
unfolding extend write_chunk refuse
receive store d size wrote =
    let written' = saturating_add d.written size in
    let quota = d.reservation.quota in
    let deficit = written' - quota.bytes in
    let (store', (quota', extended)) = extend store quota deficit in
    let d' = record d { written = written' } in
    if ltb store.max_download_bytes written'
    then refuse store d (file_too_large store.max_download_bytes)
    else if not (ltb quota.bytes written')
    then write_chunk store d' wrote
    else if not extended
    then refuse store' d store_full
    else write_chunk store' (record d' { reservation = record d.reservation { quota = quota' } })
        wrote

-- The end of the stream.
unfoldable pub finish : AttachmentStore → Download → ℕ → Instant → AttachmentStore × StoredFile
unfolding commit
finish store d expires_at created_at =
    commit store d.reservation d.attachment.attachment_type d.written expires_at created_at

-- What happens to the store, one step after the other: a download begins, gets a chunk, fails or
-- ends; a file is asked for; expired files are swept. The number is the place of the download among
-- those that run.
pub data Event : Type 0 where
  begins : Attachment → Bytes → Bool → Event
  receives : ℕ → ℕ → Bool → Event
  fails : ℕ → Event
  finishes : ℕ → ℕ → Instant → Event
  fetches : Bytes → Instant → Event
  sweeps : List Bytes → Event

abbrev pub Running : Type 0
Running = AttachmentStore × List Download

-- The store and download after a step; `none` is a download that ended.
abbrev pub Stepped : Type 0
Stepped = AttachmentStore × Option Download

abbrev pub still : AttachmentStore × Result Download Refusal → Stepped
still (store, ok d) = (store, some d)
still (store, err e) = (store, none)

abbrev pub resume : Stepped → List Download → Running
resume (store, none) ds = (store, ds)
resume (store, some d) ds = (store, d ∷ ds)

abbrev pub behind : Download → Running → Running
behind d (store, ds) = (store, d ∷ ds)

-- Does a step of the download at a place.
unfoldable pub at_place :
    (AttachmentStore → Download → Stepped) → ℕ → AttachmentStore → List Download → Running
at_place f n store [] = (store, [])
at_place f zero store (d ∷ ds) = resume (f store d) ds
at_place f (suc n) store (d ∷ ds) = behind d (at_place f n store ds)

unfoldable pub receive_step : ℕ → Bool → AttachmentStore → Download → Stepped
unfolding receive
receive_step size wrote store d = still (receive store d size wrote)

unfoldable pub fail_step : AttachmentStore → Download → Stepped
unfolding drop_quota
fail_step store d = (drop_quota store d.reservation.quota, none)

unfoldable pub finish_step : ℕ → Instant → AttachmentStore → Download → Stepped
unfolding finish
finish_step expires_at created_at store d = ((finish store d expires_at created_at).0, none)

unfoldable pub run : List Event → Running → Running
unfolding begin at_place get sweep_expired receive_step fail_step finish_step
run [] running = running
run (begins attachment uuid created ∷ events) (store, ds) =
    run events (resume (still (begin store attachment uuid created)) ds)
run (receives n size wrote ∷ events) (store, ds) =
    run events (at_place (receive_step size wrote) n store ds)
run (fails n ∷ events) (store, ds) = run events (at_place fail_step n store ds)
run (finishes n expires_at created_at ∷ events) (store, ds) =
    run events (at_place (finish_step expires_at created_at) n store ds)
run (fetches id now ∷ events) (store, ds) = run events ((get store id now).0, ds)
run (sweeps uuids ∷ events) (store, ds) = run events (sweep_expired store uuids, ds)
