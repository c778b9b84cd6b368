-- ===== src/Request/Tests.antt =====
-- A request of a new handler.
use lunchbox.Prelude.{ℕ, ◌≡◌, ◌≢◌, refl, false, [], some, arith}
use lunchbox.RequestHandler.{RequestHandler, new_handler, register, serve, write_uint32}
use lunchbox.RequestHandler.Status.{absent, status, IsValid}
use lunchbox.Request.{Request, new_request, wait, value, unresolved, done, destruct}
use lunchbox.Request.Answers.{wait-serve}

-- A handler with no requests.
abbrev idle : RequestHandler
idle = record { request_id = 1; requests = []; free_records = []; records = [] }

idle_is_new : idle ≡ new_handler
unfolding new_handler
idle_is_new = refl

idle-IsValid : IsValid idle
idle-IsValid = record {
  known = omega arith;
  apart = tt;
  locked = λ p i. absurd i;
  live = λ id p f. cc;
  own = λ i j p f g. cc;
}

abbrev resolved : Request
resolved = record { id = 2; result = 9; state = done }

destruct_done : destruct resolved idle ≡ value 9 resolved idle
unfolding destruct
destruct_done = refl

resolved_waits : wait false resolved idle ≡ value 9 resolved idle
unfolding wait
resolved_waits = refl

wait-serve_example :
    (k : RequestHandler) × (k' : RequestHandler) × (r : Request) × (serve
        (register 5 idle).0
        (write_uint32 7)
        (register 5 idle).1
      ≡ some k)
    × (wait false (new_request (register 5 idle).0) k ≡ value 7 r k')
    × IsValid k'
    × (status k' (register 5 idle).0 ≡ absent)
    × ((j : ℕ) → (register 5 idle).0 ≢ j → status k' j ≡ status idle j)
wait-serve_example = wait-serve false 5 7 idle idle-IsValid (omega arith)

-- The handler behind the registration of request 2.
abbrev busy : RequestHandler
busy = (register 5 idle).1

abbrev open_two : Request
open_two = record { id = (register 5 idle).0; result = 0; state = unresolved }
