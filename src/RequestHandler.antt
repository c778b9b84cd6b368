-- ===== src/RequestHandler.antt =====
-- lunchbox/requestHandler.h and requestHandler.cpp: requests that one thread registers and waits for,
-- and another serves. An operation is one step. `waitRequest` and `serveRequest` hold the spin lock only
-- to look the request up, and go on with its record, and `waitRequest` unregisters it under the lock
-- again: these parts follow each other here with no call of another thread in between.
pub mod Tables
pub mod Union
pub mod Status
pub mod Register
pub mod Entries
pub mod Serve
mod Tests
use lunchbox.Prelude.{
  ℕ, zero, suc, ◌+◌, ◌-◌, ◌%◌, ◌^◌, Bool, true, false, not, List, [], ◌∷◌, ◌++◌, Option, none, some,
  ◌==◌, if◌then◌else◌, length, get_elem?, set,
}

-- The union `Record::Result`: its 128 bits. The other members lie in the first bytes of `low`,
-- as on a little-endian machine.
pub record Result : Type 0 where
  pub low : ℕ
  pub high : ℕ

-- `Record`, its `data` and its `result`: `locked` is the state of its mutex.
pub record Record : Type 0 where
  pub locked : Bool
  pub user_data : ℕ
  pub result : Result

-- `detail::RequestHandler`: a `Record*` is an index of `records`, the records that exist.
-- `requests` maps identifiers to records, and a pointer of a user is a number.
pub record RequestHandler : Type 0 where
  pub request_id : ℕ
  pub requests : List (ℕ × ℕ)
  pub free_records : List ℕ
  pub records : List Record

-- `LB_MAX_UINT32`
abbrev pub max_id : ℕ
max_id = 4294967280

unfoldable pub new_handler : RequestHandler
new_handler = record { request_id = 1; requests = []; free_records = []; records = [] }

-- `requests.find`
abbrev pub find_in : List (ℕ × ℕ) → ℕ → Option ℕ
find_in [] id = none
find_in (e ∷ es) id = if e.0 == id then some e.1 else find_in es id

-- `requests.erase`
abbrev pub erase_in : List (ℕ × ℕ) → ℕ → List (ℕ × ℕ)
erase_in [] id = []
erase_in (e ∷ es) id = let rest = erase_in es id in if e.0 == id then rest else e ∷ rest

unfoldable pub find : RequestHandler → ℕ → Option ℕ
find h id = find_in h.requests id

-- The record of a request that is registered: one from the free list, or a new one. The mutex of a
-- new record is locked, the one of a free record stays as it is. `new Record` leaves the result open:
-- nothing reads it before a `serveRequest`, and it is 0 here.
reuse_record : ℕ → ℕ → List ℕ → Option Record → RequestHandler → RequestHandler
reuse_record user p ps none h = record h { free_records = ps }
reuse_record user p ps (some r) h = record h {
  free_records = ps;
  records = set h.records p (record r { user_data = user });
}

take_record : ℕ → List ℕ → RequestHandler → ℕ × RequestHandler
unfolding reuse_record
take_record user [] h = (
  length h.records,
  record h {
    records =
        h.records
        ++ record { locked = true; user_data = user; result = record { low = 0; high = 0 } } ∷ [];
  },
)
take_record user (p ∷ ps) h = (p, reuse_record user p ps (get_elem? h.records p) h)

-- `registerRequest`: the identifier, and the handler behind it. `requests[id] = request` replaces an
-- entry of the same identifier.
unfoldable pub register : ℕ → RequestHandler → ℕ × RequestHandler
unfolding take_record
register user h =
    let (p, taken) = take_record user h.free_records h in
    let id = (h.request_id + 1) % max_id in
    (id, record taken { request_id = id; requests = (id, p) ∷ erase_in taken.requests id })

-- `unregisterRequest`
unfoldable pub unregister : ℕ → RequestHandler → RequestHandler
unfolding find
unregister id h = elim (find h id) [
  | none ↦ h
  | some p ↦ record h { requests = erase_in h.requests id; free_records = p ∷ h.free_records }
]

-- What `waitRequest` does when its thread runs: there is no such request and it returns false, the
-- request is not served and it waits (or returns false when its time is over), or it has the result.
pub data Waited : Type 0 where
  unknown : Waited
  waits : Waited
  served : Result → RequestHandler → Waited

take_result : ℕ → ℕ → Option Record → RequestHandler → Waited
unfolding unregister
take_result id p none h = unknown
take_result id p (some r) h =
    if r.locked
    then waits
    else served r.result
        (unregister id (record h { records = set h.records p (record r { locked = true }) }))

-- `waitRequest`: the look-up under the spin lock, the mutex of the record and its result without it, and
-- then `unregisterRequest`.
unfoldable pub wait : ℕ → RequestHandler → Waited
unfolding find take_result
wait id h = elim (find h id) [
  | none ↦ unknown
  | some p ↦ take_result id p (get_elem? h.records p) h
]

-- The `waitRequest` functions by the type of the result, from what the shared one gives.
unfoldable pub read_pointer : Result → ℕ
read_pointer r = r.low

unfoldable pub read_uint32 : Result → ℕ
read_uint32 r = r.low % 2 ^ 32

unfoldable pub read_uint128 : Result → ℕ × ℕ
read_uint128 r = (r.high, r.low)

unfoldable pub read_bool : Result → Bool
read_bool r = not (r.low % 2 ^ 8 == 0)

-- The `serveRequest` functions by the type of the result: the bytes that they write.
unfoldable pub write_pointer : ℕ → Result → Result
write_pointer v r = record r { low = v }

unfoldable pub write_uint32 : ℕ → Result → Result
write_uint32 v r = record r { low = r.low - r.low % 2 ^ 32 + v }

unfoldable pub write_uint128 : ℕ × ℕ → Result → Result
write_uint128 v r = record { low = v.1; high = v.0 }

unfoldable pub write_bool : Bool → Result → Result
write_bool v r = record r { low = r.low - r.low % 2 ^ 8 + (if v then 1 else 0) }

-- `serveRequest` with one of the writes above. `none` is the unlocking of a mutex that is not locked.
serve_record : ℕ → (Result → Result) → Option Record → RequestHandler → Option RequestHandler
serve_record p write none h = some h
serve_record p write (some r) h =
    if r.locked
    then some (record h {
      records = set h.records p (record r { result = write r.result; locked = false });
    })
    else none

-- `serveRequest`: the look-up under the spin lock, and then the write and the unlocking without it.
unfoldable pub serve : ℕ → (Result → Result) → RequestHandler → Option RequestHandler
unfolding find serve_record
serve id write h = elim (find h id) [
  | none ↦ some h
  | some p ↦ serve_record p write (get_elem? h.records p) h
]

-- `getRequestData`, with 0 for the null pointer.
unfoldable pub get_request_data : ℕ → RequestHandler → ℕ
unfolding find
get_request_data id h = elim (find h id) [
  | none ↦ 0
  | some p ↦ elim (get_elem? h.records p) [ none ↦ 0 | some r ↦ r.user_data ]
]

-- `isRequestReady`
unfoldable pub is_request_ready : ℕ → RequestHandler → Bool
unfolding find
is_request_ready id h = elim (find h id) [
  | none ↦ false
  | some p ↦ elim (get_elem? h.records p) [ none ↦ false | some r ↦ not r.locked ]
]

unfoldable pub has_pending_requests : RequestHandler → Bool
has_pending_requests h = not (length h.requests == 0)
