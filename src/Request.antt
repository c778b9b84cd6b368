-- ===== src/Request.antt =====
-- lunchbox/request.h, for `Request< uint32_t >`: the future of a request of a handler.
pub mod Answers
mod Tests
use lunchbox.Prelude.{ℕ, Bool, true, false, not, ◌||◌, none, some, if◌then◌else◌}
use lunchbox.RequestHandler.{
  RequestHandler, Result, Waited, unknown, waits, served, unregister, read_uint32, is_request_ready,
}
use lunchbox.RequestHandler as Handler

pub data State : Type 0 where
  unresolved : State
  done : State
  unregistered : State

-- `Request::Impl`; the handler is passed to its operations.
pub record Request : Type 0 where
  pub id : ℕ
  pub result : ℕ
  pub state : State

unfoldable pub new_request : ℕ → Request
new_request id = record { id = id; result = 0; state = unresolved }

-- What `wait` does when its thread runs: a value, the exceptions `UnregisteredRequest` and
-- `FutureTimeout`, or the thread waits.
pub data Wait : Type 0 where
  value : ℕ → Request → RequestHandler → Wait
  unregistered_request : Wait
  future_timeout : Wait
  blocks : Wait

-- `if( !handler_.waitRequest( ... )) throw`: `over` says that a timeout was given and is over.
unfoldable pub resolve : Bool → Request → Waited → Wait
resolve over r unknown = future_timeout
resolve over r waits = if over then future_timeout else blocks
resolve over r (served x k) =
    value (read_uint32 x) (record r { result = read_uint32 x; state = done }) k

unfoldable pub wait_in : State → Bool → Request → RequestHandler → Wait
unfolding resolve
wait_in unregistered over r h = unregistered_request
wait_in unresolved over r h = resolve over r (Handler.wait r.id h)
wait_in done over r h = value r.result r h

unfoldable pub wait : Bool → Request → RequestHandler → Wait
unfolding wait_in
wait over r h = wait_in r.state over r h

unfoldable pub is_unresolved : State → Bool
is_unresolved unresolved = true
is_unresolved done = false
is_unresolved unregistered = false

unfoldable pub unregister_request : Request → RequestHandler → Request × RequestHandler
unfolding is_unresolved
unregister_request r h =
    if is_unresolved r.state then (record r { state = unregistered }, unregister r.id h) else (r, h)

unfoldable pub is_ready_in : State → Request → RequestHandler → Bool
is_ready_in unresolved r h = is_request_ready r.id h
is_ready_in unregistered r h = false
is_ready_in done r h = true

unfoldable pub is_ready : Request → RequestHandler → Bool
unfolding is_ready_in
is_ready r h = is_ready_in r.state r h

-- The destructor waits, without a timeout, for a request that is unresolved.
unfoldable pub destruct : Request → RequestHandler → Wait
unfolding wait is_unresolved
destruct r h = if is_unresolved r.state then wait false r h else value r.result r h
