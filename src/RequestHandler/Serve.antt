-- ===== src/RequestHandler/Serve.antt =====
-- A request that is served gives its own result to the one that waits for it, once.
use lunchbox.Prelude.{
  ==-refl, ℕ, ◌+◌, ◌%◌, ◌≡◌, ◌≢◌, refl, sym, ◌∙◌, ◌⊎◌, inl, inr, true, false, none, some,
  if◌then◌else◌, set,
}
use lunchbox.RequestHandler.{
  RequestHandler, Record, Result, max_id, unregister, wait, unknown, waits, served, take_record,
  serve, register,
}
use lunchbox.RequestHandler.Status.{absent, pending, answered, status, IsValid}
use lunchbox.RequestHandler.Entries.{
  Entry, status-cases, set-IsValid, set-at, dropped, dropped-IsValid,
}

serve-Entry :
    (id : ℕ) (write : Result → Result) (h : RequestHandler) (p : ℕ) (r : Record)
    → Entry h id p r
    → serve id write h ≡ (
        if r.locked
        then some (record h {
          records = set h.records p (record r { result = write r.result; locked = false });
        })
        else none)
unfolding serve
serve-Entry id write h p r n = rw (serve, n.entry, n.at) refl

-- In a valid handler `serveRequest` of an identifier that is not registered changes nothing. Of a pending request it
-- writes the result, which is then the status of that request, and leaves the others as they are. A
-- request that is already served it may not serve again: its mutex is not locked.
pub serve-cases :
    (id : ℕ) (write : Result → Result) (h : RequestHandler)
    → IsValid h
    → ((status h id ≡ absent) × (serve id write h ≡ some h))
      ⊎ ((status h id ≡ pending)
          × (old : Result) × (k : RequestHandler) × (serve id write h ≡ some k)
          × IsValid k
          × (status k id ≡ answered (write old))
          × ((j : ℕ) → id ≢ j → status k j ≡ status h j))
      ⊎ ((r : Result) × (status h id ≡ answered r) × (serve id write h ≡ none))
unfolding serve
serve-cases id write h v = elim (status-cases h id v) [
  | inl gone ↦ inl (gone.1, rw (serve, gone.0) refl)
  | inr (p, r, n, inl shut) ↦
      let new = record r { result = write r.result; locked = false } in
      let k = record h { records = set h.records p new } in
      let kept = set-IsValid h id p r new v n in
      let at = set-at h id p r new n in
      inr (
        inl (
          shut.1,
          r.result,
          k,
          serve-Entry id write h p r n ∙ rw shut.0 refl,
          kept.0,
          rw (at.entry, at.at) refl,
          kept.1,
        ))
  | inr (p, r, n, inr open_now) ↦
      inr (inr (r.result, open_now.1, serve-Entry id write h p r n ∙ rw open_now.0 refl))
]

wait-Entry :
    (id : ℕ) (h : RequestHandler) (p : ℕ) (r : Record)
    → Entry h id p r
    → wait id h ≡ (
        if r.locked
        then waits
        else served r.result
            (dropped id p (record h { records = set h.records p (record r { locked = true }) })))
unfolding wait unregister
wait-Entry id h p r n = rw (wait, n.entry, n.at) (rw (unregister, n.entry) refl)

-- In a valid handler `waitRequest` of an identifier that is not registered returns false. It waits for a request that
-- is pending. Of a request that is served it returns the result and forgets the request; the other
-- requests are as before, and the record can be used again.
pub wait-cases :
    (id : ℕ) (h : RequestHandler)
    → IsValid h
    → ((status h id ≡ absent) × (wait id h ≡ unknown))
      ⊎ ((status h id ≡ pending) × (wait id h ≡ waits))
      ⊎ ((r : Result) × (k : RequestHandler) × (status h id ≡ answered r)
          × (wait id h ≡ served r k)
          × IsValid k
          × (status k id ≡ absent)
          × ((j : ℕ) → id ≢ j → status k j ≡ status h j))
unfolding wait
wait-cases id h v = elim (status-cases h id v) [
  | inl gone ↦ inl (gone.1, rw (wait, gone.0) refl)
  | inr (p, r, n, inl shut) ↦ inr (inl (shut.1, wait-Entry id h p r n ∙ rw shut.0 refl))
  | inr (p, r, n, inr open_now) ↦
      let new = record r { locked = true } in
      let k = record h { records = set h.records p new } in
      let kept = set-IsValid h id p r new v n in
      let gone = dropped-IsValid k id p new kept.0 (set-at h id p r new n) refl in
      inr (
        inr (
          r.result,
          dropped id p k,
          open_now.1,
          wait-Entry id h p r n ∙ rw open_now.0 refl,
          gone.0,
          gone.1,
          λ j ne. gone.2 j ne ∙ kept.1 j ne,
        ))
]

unregister-Entry :
    (id : ℕ) (h : RequestHandler) (p : ℕ) (r : Record)
    → Entry h id p r
    → unregister id h ≡ dropped id p h
unfolding unregister
unregister-Entry id h p r n = rw (unregister, n.entry) refl

answered-eq : (a b : Result) → answered a ≡ answered b → a ≡ b
answered-eq a b e = cc

-- In a valid handler `unregisterRequest` of a request that is not served forgets it and leaves the others as they are.
pub unregister-absent :
    (id : ℕ) (h : RequestHandler)
    → IsValid h
    → (status h id ≡ absent) ⊎ (status h id ≡ pending)
    → IsValid (unregister id h)
      × (status (unregister id h) id ≡ absent)
      × ((j : ℕ) → id ≢ j → status (unregister id h) j ≡ status h j)
unfolding unregister
unregister-absent id h v s = elim (status-cases h id v) [
  | inl gone ↦
      let same : unregister id h ≡ h = rw (unregister, gone.0) refl in
      rw same (v, gone.1, λ j ne. refl)
  | inr (p, r, n, inl shut) ↦ rw (unregister-Entry id h p r n) (dropped-IsValid h id p r v n shut.0)
  | inr (p, r, n, inr open_now) ↦ elim s [ inl a ↦ absurd cc | inr b ↦ absurd cc ]
]

-- In a valid handler `unregisterRequest` of a request that is served but was not waited for leaves the mutex of its
-- record unlocked, so that the next request that is registered has the old result at once.
pub unregister-stale :
    (user id : ℕ) (r : Result) (h : RequestHandler)
    → IsValid h
    → status h id ≡ answered r
    → status (register user (unregister id h)).1 (register user (unregister id h)).0 ≡ answered r
unfolding register take_record
unregister-stale user id r h v s = elim (status-cases h id v) [
  | inl gone ↦ absurd cc
  | inr (p, q, n, inl shut) ↦ absurd cc
  | inr (p, q, n, inr open_now) ↦
      let new = record q { user_data = user } in
      let same : q.result ≡ r = answered-eq q.result r (sym open_now.1 ∙ s) in
      let at = set-at h id p q new n in
      rw
        (
          unregister-Entry id h p q n,
          n.at,
          ==-refl ((h.request_id + 1) % max_id),
          at.at,
          open_now.0,
          same,
        )
        refl
]
