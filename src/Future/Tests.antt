-- ===== src/Future/Tests.antt =====
-- A future whose function returns what it finds in the world, and adds one to it.
use lunchbox.Prelude.{ℕ, ◌+◌, ◌*◌, false, true, List, [], ◌∷◌, ◌≡◌, refl, ◌==◌}
use lunchbox.Future.{bool_impl, wait, wait_bool, Use, Answer}
use lunchbox.Future.Once.{pending}

abbrev count_run : ℕ → ℕ × ℕ
count_run runs = (runs, runs + 1)

-- The world is 5 when the future is made, and 10 when it is first waited for.
abbrev some_uses : List (Use ℕ ℕ)
some_uses =
    Use.asks
    ∷ Use.others (λ w. w * 2)
    ∷ Use.waits 0
    ∷ Use.others (λ w. w * 2)
    ∷ Use.asks
    ∷ Use.compares (λ a. a == 10)
    ∷ []

pending_run :
    pending count_run some_uses 5
    ≡ (Answer.truth false ∷ Answer.value 10 ∷ Answer.truth true ∷ Answer.truth true ∷ [], 22)
pending_run = refl

ready_runs : wait {W = ℕ} bool_impl 0 true 3 ≡ (true, (true, 3))
unfolding wait wait_bool
ready_runs = refl
