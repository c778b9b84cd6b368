-- ===== src/Future.antt =====
-- lunchbox/future.h, futureFunction.h and readyFuture.h: values that are there when one waits for them.
-- A function that fulfils a future changes the rest of the program, which is the world W. It throws
-- no exception.
pub mod Once
mod Tests
use lunchbox.Prelude.{ℕ, Bool, true, false, not, List, [], ◌∷◌, ◌++◌, Option, none, some}

-- `FutureImpl`: an implementation with the state S and the value A.
pub record FutureImpl {ℓ κ μ} (S : Type ℓ) (W : Type κ) (A : Type μ) : Type (ℓ ⊔ κ ⊔ μ) where
  pub wait_for : ℕ → S → W → A × (S × W)
  pub ready : S → Bool

-- `LB_TIMEOUT_INDEFINITE`
abbrev pub timeout_indefinite : ℕ
timeout_indefinite = 4294967295

-- `FutureFunction`: `func_`, which is `none` when it is empty, and `result_`.
pub record FutureFunction {κ μ} (W : Type κ) (A : Type μ) : Type (κ ⊔ μ) where
  pub func : Option (W → A × W)
  pub result : A

module _ {κ μ} {W : Type κ} {A : Type μ} where
  -- The constructor: `memory` is what `result_` holds that it does not set.
  unfoldable pub new_function : Option (W → A × W) → A → FutureFunction W A
  new_function func memory = record { func = func; result = memory }

  abbrev pub fulfil : W → FutureFunction W A → Option (W → A × W) → A × (FutureFunction W A × W)
  fulfil w f none = (f.result, (f, w))
  fulfil w f (some func) =
      let (result, w') = func w in (result, (record { func = none; result = result }, w'))

  unfoldable pub wait_function : ℕ → FutureFunction W A → W → A × (FutureFunction W A × W)
  wait_function timeout f w = fulfil w f f.func

  abbrev is_none : Option (W → A × W) → Bool
  is_none none = true
  is_none (some func) = false

  unfoldable pub is_ready_function : FutureFunction W A → Bool
  is_ready_function f = is_none f.func

  -- The destructor leaves the world.
  unfoldable pub destroy_function : FutureFunction W A → W → W
  unfolding wait_function
  destroy_function f w = (wait_function 0 f w).1.1

  abbrev pub function_impl : FutureImpl (FutureFunction W A) W A
  function_impl = record { wait_for = wait_function; ready = is_ready_function }

-- `FutureBool<value>`: the value is the state, since a template's argument is one.
unfoldable pub wait_bool {κ} : {W : Type κ} → ℕ → Bool → W → Bool × (Bool × W)
wait_bool timeout value w = (value, (value, w))

unfoldable pub is_ready_bool : Bool → Bool
is_ready_bool value = true

abbrev pub bool_impl {κ} : {W : Type κ} → FutureImpl Bool W Bool
bool_impl = record { wait_for = wait_bool; ready = is_ready_bool }

-- `Future` over any implementation.
module _ {ℓ κ μ} {S : Type ℓ} {W : Type κ} {A : Type μ} (impl : FutureImpl S W A) where
  unfoldable pub wait : ℕ → S → W → A × (S × W)
  wait timeout s w = impl.wait_for timeout s w

  unfoldable pub is_ready : S → Bool
  is_ready s = impl.ready s

  -- The conversion to `bool_t`, `operator!` and the comparisons wait and test the value.
  unfoldable pub compare : (A → Bool) → S → W → Bool × (S × W)
  unfolding wait
  compare test s w = let (a, rest) = wait timeout_indefinite s w in (test a, rest)

  unfoldable pub negate : (A → Bool) → S → W → Bool × (S × W)
  unfolding wait
  negate test s w = let (a, rest) = wait timeout_indefinite s w in (not (test a), rest)

-- The uses of a future with what they answer, and what the rest of the program does to the world
-- in between.
pub data Use {κ μ} (W : Type κ) (A : Type μ) : Type (κ ⊔ μ) where
  waits : ℕ → Use W A
  asks : Use W A
  compares : (A → Bool) → Use W A
  negates : (A → Bool) → Use W A
  others : (W → W) → Use W A

pub data Answer {μ} (A : Type μ) : Type μ where
  value : A → Answer A
  truth : Bool → Answer A

module _ {ℓ κ μ} {S : Type ℓ} {W : Type κ} {A : Type μ} (impl : FutureImpl S W A) where
  unfoldable pub use_once : Use W A → S → W → List (Answer A) × (S × W)
  unfolding wait is_ready compare negate
  use_once (waits timeout) s w = let (a, rest) = wait impl timeout s w in (value a ∷ [], rest)
  use_once asks s w = (truth (is_ready impl s) ∷ [], (s, w))
  use_once (compares test) s w = let (b, rest) = compare impl test s w in (truth b ∷ [], rest)
  use_once (negates test) s w = let (b, rest) = negate impl test s w in (truth b ∷ [], rest)
  use_once (others change) s w = ([], (s, change w))

  unfoldable pub use_all : List (Use W A) → S → W → List (Answer A) × (S × W)
  use_all [] s w = ([], (s, w))
  use_all (u ∷ us) s w =
      let (answers, (s', w')) = use_once u s w in
      let (more, rest) = use_all us s' w' in (answers ++ more, rest)
