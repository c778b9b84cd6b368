-- ===== src/RequestHandler/Tests.antt =====
-- Runs of the handler, and its theorems at one with a pending and a served request.
use lunchbox.Prelude.{
  some-eq, ℕ, ◌≡◌, refl, sym, ◌∙◌, ◌⊎◌, inl, inr, true, false, [], ◌∷◌, none, some, arith, ◌==◌,
  Bool-cases,
}
use lunchbox.RequestHandler.{
  RequestHandler, Result, new_handler, register, serve, unregister, write_uint32, find_in,
}
use lunchbox.RequestHandler.Status.{answered, status, IsValid}
use lunchbox.RequestHandler.Serve.{unregister-stale}

abbrev zero_result : Result
zero_result = record { low = 0; high = 0 }

-- Request 2 is pending, and request 3 has the result 7.
abbrev handler : RequestHandler
handler = record {
  request_id = 3;
  requests = (3, 1) ∷ (2, 0) ∷ [];
  free_records = [];
  records =
      record { locked = true; user_data = 5; result = zero_result }
      ∷ record { locked = false; user_data = 6; result = record { low = 7; high = 0 } }
      ∷ [];
}

handler_runs : serve 3 (write_uint32 7) (register 6 (register 5 new_handler).1).1 ≡ some handler
unfolding serve register write_uint32 new_handler
handler_runs = refl

-- The two entries of the handler.
entries :
    (id p : ℕ) → find_in handler.requests id ≡ some p → ((id ≡ 3) × (p ≡ 1)) ⊎ ((id ≡ 2) × (p ≡ 0))
entries id p f = elim (Bool-cases (3 == id)) [
  | inl t ↦
      let u : find_in handler.requests id ≡ some 1 = rw t refl in
      inl (ground arith, sym (some-eq 1 p (sym u ∙ f)))
  | inr t ↦ elim (Bool-cases (2 == id)) [
    | inl s ↦
        let u : find_in handler.requests id ≡ some 0 = rw (t, s) refl in
        inr (ground arith, sym (some-eq 0 p (sym u ∙ f)))
    | inr s ↦ let u : find_in handler.requests id ≡ none = rw (t, s) refl in absurd cc
  ]
]

handler-IsValid : IsValid handler
handler-IsValid = record {
  known = omega arith;
  apart = tt;
  locked = λ p i. absurd i;
  live = λ id p f. (omega (arith, entries id p f), λ i. i);
  own = λ i j p f g. omega (arith, entries i p f, entries j p g);
}

unregister-stale_example :
    status (register 4 (unregister 3 handler)).1 (register 4 (unregister 3 handler)).0
    ≡ answered (record { low = 7; high = 0 })
unregister-stale_example =
    unregister-stale 4 3 (record { low = 7; high = 0 }) handler handler-IsValid refl
