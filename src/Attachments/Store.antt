-- ===== src/Attachments/Store.antt =====
-- attachments.rs: the store of downloaded files and its quota. The UUID of a file is its text.
use ruprogress_mcp.Attachments.Name.{path_parts, sanitize_basename}
use ruprogress_mcp.RedmineClient.Paging.{u64_max}
use ruprogress_mcp.Std.Clock.{Duration, Instant, saturating_duration_since}
use ruprogress_mcp.Std.Map.{HashMap}
use ruprogress_mcp.Std.Map as Map
use ruprogress_mcp.Base.{
  Bool, Bytes, List, Option, Result, [], bytes_eq, codes, err, false, filter, if◌then◌else◌, leb,
  ltb, min, nat_eq, none, not, ok, some, true, ℕ, ◌%◌, ◌+◌, ◌++◌, ◌-◌, ◌==◌, ◌^◌, ◌∷◌,
}

-- `expires_at` is the wall clock's answer at `commit`.
pub record StoredFile : Type 0 where
  pub uuid : Bytes
  pub attachment_id : ℕ
  pub filename : Bytes
  pub content_type : Option Bytes
  pub size : ℕ
  pub path : Bytes
  pub expires_at : ℕ
  pub created_at : Instant

pub record Inner : Type 0 where
  pub entries : HashMap Bytes StoredFile
  pub in_flight : ℕ

pub record AttachmentStore : Type 0 where
  pub dir : Bytes
  pub expires_after : Duration
  pub max_download_bytes : ℕ
  pub max_store_bytes : ℕ
  pub inner : Inner

-- A guard that is armed gives its bytes back when it is dropped.
pub record QuotaGuard : Type 0 where
  pub bytes : ℕ
  pub armed : Bool

pub record Reservation : Type 0 where
  pub reserved_uuid : Bytes
  pub reserved_id : ℕ
  pub reserved_path : Bytes
  pub quota : QuotaGuard

pub data ReserveError : Type 0 where
  full : ReserveError
  io : ReserveError

abbrev pub saturating_add : ℕ → ℕ → ℕ
saturating_add a b = min (a + b) u64_max

-- The store that `init` makes.
abbrev pub new_store : Bytes → Duration → ℕ → ℕ → AttachmentStore
new_store dir expires_after max_download_bytes max_store_bytes = record {
  dir = dir;
  expires_after = expires_after;
  max_download_bytes = max_download_bytes;
  max_store_bytes = max_store_bytes;
  inner = record { entries = []; in_flight = 0 };
}

abbrev pub total_size : HashMap Bytes StoredFile → ℕ
total_size [] = 0
total_size ((uuid, f) ∷ entries) = f.size + total_size entries

-- A sum of `u64` wraps around in a release build.
unfoldable pub committed_locked : Inner → ℕ
committed_locked inner = total_size inner.entries % 2 ^ 64

abbrev pub with_in_flight : AttachmentStore → ℕ → AttachmentStore
with_in_flight store n = record store {
  inner = record { entries = store.inner.entries; in_flight = n };
}

abbrev pub with_entries : AttachmentStore → HashMap Bytes StoredFile → AttachmentStore
with_entries store es = record store {
  inner = record { entries = es; in_flight = store.inner.in_flight };
}

-- What the store would hold, with more bytes.
unfoldable pub projected : AttachmentStore → ℕ → ℕ
unfolding committed_locked
projected store bytes =
    saturating_add (saturating_add (committed_locked store.inner) store.inner.in_flight) bytes

unfoldable pub try_reserve : AttachmentStore → ℕ → AttachmentStore × Option QuotaGuard
unfolding projected
try_reserve store bytes =
    if ltb store.max_store_bytes (projected store bytes) then (store, none) else (
      with_in_flight store (saturating_add store.inner.in_flight bytes),
      some (record { bytes = bytes; armed = true }),
    )

-- `QuotaGuard::extend`.
unfoldable pub extend : AttachmentStore → QuotaGuard → ℕ → AttachmentStore × (QuotaGuard × Bool)
unfolding projected
extend store quota additional =
    if ltb store.max_store_bytes (projected store additional) then (store, (quota, false)) else (
      with_in_flight store (saturating_add store.inner.in_flight additional),
      (record quota { bytes = saturating_add quota.bytes additional }, true),
    )

unfoldable pub drop_quota : AttachmentStore → QuotaGuard → AttachmentStore
drop_quota store quota =
    if not quota.armed then store else with_in_flight store (store.inner.in_flight - quota.bytes)

abbrev pub join_path : Bytes → Bytes → Bytes
join_path dir name = dir ++ b'/' ∷ name

-- The reservation's directory and path, once bytes were asked for. `created` tells whether the
-- directory was made and restricted to its owner.
unfoldable pub allocate :
    AttachmentStore × Option QuotaGuard
    → ℕ
    → Bytes
    → Bytes
    → Bool
    → AttachmentStore × Result Reservation ReserveError
unfolding drop_quota sanitize_basename
allocate (store, none) attachment_id redmine_filename uuid created = (store, err full)
allocate (store, some quota) attachment_id redmine_filename uuid created =
    if not created then (drop_quota store quota, err io) else (
      store,
      ok (record {
        reserved_uuid = uuid;
        reserved_id = attachment_id;
        reserved_path = join_path (join_path store.dir uuid) (sanitize_basename redmine_filename);
        quota = quota;
      }),
    )

unfoldable pub reserve :
    AttachmentStore
    → ℕ
    → Bytes
    → ℕ
    → Bytes
    → Bool
    → AttachmentStore × Result Reservation ReserveError
unfolding try_reserve allocate
reserve store attachment_id redmine_filename bytes uuid created =
    allocate (try_reserve store bytes) attachment_id redmine_filename uuid created

-- `Path::file_name`, of a path that has a part besides `.`.
unfoldable pub file_name : Bytes → Option Bytes
unfolding path_parts
file_name path = last_name none (filter (λ part. not (part == codes ".")) (path_parts path))
  where
    last_name : Option Bytes → List Bytes → Option Bytes
    last_name found [] = found
    last_name found (part ∷ parts) =
        last_name (if part == codes ".." then none else some part) parts

abbrev pub name_or_attachment : Option Bytes → Bytes
name_or_attachment none = codes "attachment"
name_or_attachment (some name) = name

unfoldable pub stored_file : Reservation → Option Bytes → ℕ → ℕ → Instant → StoredFile
unfolding file_name
stored_file reservation content_type size expires_at created_at = record {
  uuid = reservation.reserved_uuid;
  attachment_id = reservation.reserved_id;
  filename = name_or_attachment (file_name reservation.reserved_path);
  content_type = content_type;
  size = size;
  path = reservation.reserved_path;
  expires_at = expires_at;
  created_at = created_at;
}

unfoldable pub commit :
    AttachmentStore → Reservation → Option Bytes → ℕ → ℕ → Instant → AttachmentStore × StoredFile
unfolding stored_file
commit store reservation content_type size expires_at created_at =
    let stored = stored_file reservation content_type size expires_at created_at in
    let entries' = Map.insert stored.uuid stored store.inner.entries in
    (
      with_in_flight (with_entries store entries')
          (store.inner.in_flight - reservation.quota.bytes),
      stored,
    )

-- Whether the entry of a UUID has passed its time.
abbrev pub is_expired : AttachmentStore → Instant → Option StoredFile → Bool
is_expired store now none = false
is_expired store now (some e) = leb store.expires_after (saturating_duration_since now e.created_at)

unfoldable pub get : AttachmentStore → Bytes → Instant → AttachmentStore × Option StoredFile
get store id now =
    if not (is_expired store now (Map.get id store.inner.entries))
    then (store, Map.get id store.inner.entries)
    else (with_entries store (Map.remove id store.inner.entries), none)

abbrev pub remove_each : List Bytes → HashMap Bytes StoredFile → HashMap Bytes StoredFile
remove_each [] entries = entries
remove_each (uuid ∷ uuids) entries = remove_each uuids (Map.remove uuid entries)

-- `sweep_expired`, with the UUIDs of the directories that it could remove.
unfoldable pub sweep_expired : AttachmentStore → List Bytes → AttachmentStore
sweep_expired store expired_uuids =
    with_entries store (remove_each expired_uuids store.inner.entries)
