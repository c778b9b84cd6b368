-- ===== src/Future/Once.antt =====
-- The function of a future runs once, when it is first waited for, and all waits see its one value.
use lunchbox.Prelude.{true, false, not, List, [], ◌∷◌, none}
use lunchbox.Future.{
  FutureFunction, destroy_function, function_impl, Use, waits, asks, compares, negates, others,
  Answer, value, truth, use_all,
}

module _ {κ μ} {W : Type κ} {A : Type μ} where
  -- What the uses answer, and the world in the end, when the value `a` is there.
  abbrev pub settled : A → List (Use W A) → W → List (Answer A) × W
  settled a [] w = ([], w)
  settled a (waits timeout ∷ us) w = let rest = settled a us w in (value a ∷ rest.0, rest.1)
  settled a (asks ∷ us) w = let rest = settled a us w in (truth true ∷ rest.0, rest.1)
  settled a (compares test ∷ us) w = let rest = settled a us w in (truth (test a) ∷ rest.0, rest.1)
  settled a (negates test ∷ us) w =
      let rest = settled a us w in (truth (not (test a)) ∷ rest.0, rest.1)
  settled a (others change ∷ us) w = settled a us (change w)

  -- The same from the making of the future to its destructor: the function runs at the first wait or
  -- comparison, in the world as it is then, and at the end if there is none.
  abbrev pub pending : (W → A × W) → List (Use W A) → W → List (Answer A) × W
  pending func [] w = ([], (func w).1)
  pending func (waits timeout ∷ us) w =
      let (a, w') = func w in let rest = settled a us w' in (value a ∷ rest.0, rest.1)
  pending func (asks ∷ us) w = let rest = pending func us w in (truth false ∷ rest.0, rest.1)
  pending func (compares test ∷ us) w =
      let (a, w') = func w in let rest = settled a us w' in (truth (test a) ∷ rest.0, rest.1)
  pending func (negates test ∷ us) w =
      let (a, w') = func w in let rest = settled a us w' in (truth (not (test a)) ∷ rest.0, rest.1)
  pending func (others change ∷ us) w = pending func us (change w)

  -- The answers of the uses and the world behind the destructor that follows them.
  abbrev pub life : List (Use W A) → FutureFunction W A → W → List (Answer A) × W
  life us f w = let run = use_all function_impl us f w in (run.0, destroy_function run.1.0 run.1.1)

  abbrev fulfilled : A → FutureFunction W A
  fulfilled a = record { func = none; result = a }
