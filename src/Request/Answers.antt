-- ===== src/Request/Answers.antt =====
-- A request gives the answer of its handler, once and for all.
use lunchbox.Prelude.{
  ℕ, ◌^◌, ◌<◌, ◌≡◌, ◌≢◌, refl, ap, ◌∙◌, inl, inr, Bool, true, false, some, if◌then◌else◌, arith,
}
use lunchbox.RequestHandler.{
  RequestHandler, Result, Waited, unknown, waits, served, register, serve, unregister, read_uint32,
  write_uint32,
}
use lunchbox.RequestHandler as Handler
use lunchbox.RequestHandler.Status.{Status, absent, pending, answered, status, IsValid}
use lunchbox.RequestHandler.Register.{register-pending}
use lunchbox.RequestHandler.Serve.{serve-cases, wait-cases, unregister-absent}
use lunchbox.RequestHandler.Union.{read-write}
use lunchbox.Request.{
  State, unresolved, done, unregistered, Request, new_request, value, unregistered_request,
  future_timeout, blocks, resolve, wait_in, wait, is_ready, is_ready_in, unregister_request,
  is_unresolved,
}

-- A request that has got its answer.
abbrev pub IsDone : ℕ → Request → Type 0
IsDone x r = (r.state ≡ done) × (r.result ≡ x)

resolve-IsDone :
    (over : Bool) (r r' : Request) (w : Waited) (x : ℕ) (h' : RequestHandler)
    → resolve over r w ≡ value x r' h'
    → IsDone x r'
unfolding resolve
resolve-IsDone over r r' unknown x h' e = cc
resolve-IsDone true r r' waits x h' e = cc
resolve-IsDone false r r' waits x h' e = cc
resolve-IsDone over r r' (served y k) x h' e = ground arith

wait_in-IsDone :
    (st : State) (over : Bool) (r r' : Request) (h h' : RequestHandler) (x : ℕ)
    → r.state ≡ st
    → wait_in st over r h ≡ value x r' h'
    → IsDone x r'
unfolding wait_in
wait_in-IsDone unregistered over r r' h h' x at e = cc
wait_in-IsDone unresolved over r r' h h' x at e =
    resolve-IsDone over r r' (Handler.wait r.id h) x h' e
wait_in-IsDone done over r r' h h' x at e = ground (arith, at, e)

-- A request that has returned a value returns it again, whatever has become of the handler, which it
-- leaves as it is; and it is ready.
pub wait-wait :
    (over over' : Bool) (r r' : Request) (h h' k : RequestHandler) (x : ℕ)
    → wait over r h ≡ value x r' h'
    → (wait over' r' k ≡ value x r' k) × (is_ready r' k ≡ true)
unfolding wait wait_in is_ready is_ready_in
wait-wait over over' r r' h h' k x e =
    let (finished, same) = wait_in-IsDone r.state over r r' h h' x refl e in
    (
      ap (λ st. wait_in st over' r' k) finished ∙ ap (λ y. value y r' k) same,
      ap (λ st. is_ready_in st r' k) finished,
    )

open_request :
    (over : Bool) (id : ℕ) (h : RequestHandler)
    → wait over (new_request id) h ≡ resolve over (new_request id) (Handler.wait id h)
unfolding wait wait_in new_request
open_request over id h = refl

not_both : (s : Status) → s ≡ absent → s ≡ pending → ⊥
not_both s a b = cc

not_answered : (s : Status) (x : Result) → s ≡ answered x → s ≡ pending → ⊥
not_answered s x a b = cc

not_gone : (s : Status) (x : Result) → s ≡ answered x → s ≡ absent → ⊥
not_gone s x a b = cc

answer_unique : (s : Status) (x y : Result) → s ≡ answered x → s ≡ answered y → x ≡ y
answer_unique s x y a b = cc

-- A request that a valid handler registers: waiting for it blocks, or ends with an exception when a
-- timeout is over, until it is served.
pub wait-register :
    (over : Bool) (user : ℕ) (h : RequestHandler)
    → IsValid h
    → wait over (new_request (register user h).0) (register user h).1
      ≡ (if over then future_timeout else blocks)
unfolding resolve
wait-register over user h v =
    let id : ℕ = (register user h).0 in
    let h1 : RequestHandler = (register user h).1 in
    let reg = register-pending user h v in
    elim (wait-cases id h1 reg.1) [
      | inl u ↦ absurd (not_both (status h1 id) u.0 reg.2)
      | inr (inl u) ↦ open_request over id h1 ∙ ap (resolve over (new_request id)) u.1
      | inr (inr u) ↦ absurd (not_answered (status h1 id) u.0 u.2 reg.2)
    ]

-- Waiting for a request that has been served.
wait-answered :
    (over : Bool) (id x : ℕ) (old : Result) (k : RequestHandler)
    → IsValid k
    → status k id ≡ answered (write_uint32 x old)
    → x < 2 ^ 32
    → (k' : RequestHandler) × (r : Request) × (wait over (new_request id) k ≡ value x r k')
      × IsValid k'
      × (status k' id ≡ absent)
      × ((j : ℕ) → id ≢ j → status k' j ≡ status k j)
unfolding resolve
wait-answered over id x old k v at small = elim (wait-cases id k v) [
  | inl u ↦ absurd (not_gone (status k id) _ at u.0)
  | inr (inl u) ↦ absurd (not_answered (status k id) _ at u.0)
  | inr (inr (y, k', same, gives, v', gone, others)) ↦
      let reads : read_uint32 y ≡ x =
        ap read_uint32 (answer_unique (status k id) y (write_uint32 x old) same at)
        ∙ (read-write old 0 x 0 0 true small).1 in
      (
        k',
        record (new_request id) { result = read_uint32 y; state = done },
        open_request over id k
            ∙ ap (resolve over (new_request id)) gives
            ∙ ap
                (λ z. value z (record (new_request id) { result = read_uint32 y; state = done }) k')
                reads,
        v',
        gone,
        others,
      )
]

-- A registered request that is served with a `uint32_t`: waiting for it, with a timeout or without one,
-- gives that value. The handler then has forgotten the request, is valid, and has every other request
-- as it was before the registration.
pub wait-serve :
    (over : Bool) (user value_served : ℕ) (h : RequestHandler)
    → IsValid h
    → value_served < 2 ^ 32
    → (k : RequestHandler) × (k' : RequestHandler) × (r : Request) × (serve
          (register user h).0
          (write_uint32 value_served)
          (register user h).1
        ≡ some k)
      × (wait over (new_request (register user h).0) k ≡ value value_served r k')
      × IsValid k'
      × (status k' (register user h).0 ≡ absent)
      × ((j : ℕ) → (register user h).0 ≢ j → status k' j ≡ status h j)
wait-serve over user x h v small =
    let id : ℕ = (register user h).0 in
    let h1 : RequestHandler = (register user h).1 in
    let reg = register-pending user h v in
    elim (serve-cases id (write_uint32 x) h1 reg.1) [
      | inl u ↦ absurd (not_both (status h1 id) u.0 reg.2)
      | inr (inl (at, old, k, gives, v1, answer, others)) ↦
          let (k', r, waits_for, v2, gone, others') =
            wait-answered over id x old k v1 answer small in
          (k, k', r, gives, waits_for, v2, gone, λ j ne. others' j ne ∙ others j ne ∙ reg.3 j ne)
      | inr (inr u) ↦ absurd (not_answered (status h1 id) u.0 u.1 reg.2)
    ]

-- A request that is unregistered before it is resolved: waiting for it throws from then on, whatever
-- becomes of the handler, it is not ready, and unregistering it again changes nothing. A valid handler
-- stays valid and has forgotten the request if it was pending, and has every other one as before.
pub wait-unregister_request :
    (over : Bool) (r : Request) (h k : RequestHandler)
    → r.state ≡ unresolved
    → IsValid h
    → status h r.id ≡ pending
    → (wait over (unregister_request r h).0 k ≡ unregistered_request)
      × (is_ready (unregister_request r h).0 k ≡ false)
      × (unregister_request (unregister_request r h).0 k ≡ ((unregister_request r h).0, k))
      × IsValid (unregister_request r h).1
      × (status (unregister_request r h).1 r.id ≡ absent)
      × ((j : ℕ) → r.id ≢ j → status (unregister_request r h).1 j ≡ status h j)
unfolding wait wait_in is_ready is_ready_in unregister_request is_unresolved
wait-unregister_request over r h k open_ v at =
    let eq : unregister_request r h ≡ (record r { state = unregistered }, unregister r.id h) =
      ap
        (λ st.
          if is_unresolved st
          then (record r { state = unregistered }, unregister r.id h)
          else (r, h))
        open_ in
    let u = unregister-absent r.id h v (inr at) in rw eq (refl, refl, refl, u.0, u.1, u.2)
