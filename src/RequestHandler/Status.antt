-- ===== src/RequestHandler/Status.antt =====
-- The abstract view of a handler, and its invariant.
use lunchbox.Prelude.{ℕ, ◌<◌, ◌≡◌, true, List, Option, none, some, length, get_elem?, if◌then◌else◌}
use lunchbox.RequestHandler.{RequestHandler, Record, Result, find_in, max_id}
use lunchbox.RequestHandler.Tables.{In, Apart}

-- What there is of a request: nothing, or it is pending, or it has been served.
pub data Status : Type 0 where
  absent : Status
  pending : Status
  answered : Result → Status

abbrev pub record_status : Option Record → Status
record_status none = absent
record_status (some r) = if r.locked then pending else answered r.result

abbrev pub entry_status : List Record → Option ℕ → Status
entry_status rs none = absent
entry_status rs (some p) = record_status (get_elem? rs p)

abbrev pub status : RequestHandler → ℕ → Status
status h id = entry_status h.records (find_in h.requests id)

-- Every entry has a record of its own, and no free record is in use or unlocked.
pub record IsValid (h : RequestHandler) : Type 0 where
  pub known : h.request_id < max_id
  pub apart : Apart h.free_records
  pub locked :
      (p : ℕ)
      → In p h.free_records
      → (r : Record) × (get_elem? h.records p ≡ some r) × (r.locked ≡ true)
  pub live :
      (id p : ℕ)
      → find_in h.requests id ≡ some p
      → (p < length h.records) × (In p h.free_records → ⊥)
  pub own : (i j p : ℕ) → find_in h.requests i ≡ some p → find_in h.requests j ≡ some p → i ≡ j
