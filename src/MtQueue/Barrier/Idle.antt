-- ===== src/MtQueue/Barrier/Idle.antt =====
-- How many workers of a list do not work.
use lunchbox.Prelude.{
  ℕ, zero, suc, ◌+◌, ◌≤◌, ◌<◌, ◌≡◌, ◌≢◌, refl, List, [], ◌∷◌, some, length, get_elem?, set,
  replicate, arith,
}
use lunchbox.MtQueue.Barrier.{Worker, working, in_barrier, finished}

-- Not working, as a number.
abbrev pub idle : Worker → ℕ
idle working = 0
idle in_barrier = 1
idle finished = 1

abbrev pub count_idle : List Worker → ℕ
count_idle [] = 0
count_idle (w ∷ ws) = idle w + count_idle ws

pub count_idle-set :
    (ws : List Worker) (i : ℕ) (old new : Worker)
    → get_elem? ws i ≡ some old
    → count_idle (set ws i new) + idle old ≡ count_idle ws + idle new
count_idle-set [] i old new e = cc
count_idle-set (w ∷ ws) zero old new e = let same : w ≡ old = cc in rw same (omega arith)
count_idle-set (w ∷ ws) (suc i) old new e = omega (arith, count_idle-set ws i old new e)

idle_le_one : (w : Worker) → idle w ≤ 1
idle_le_one working = omega arith
idle_le_one in_barrier = omega arith
idle_le_one finished = omega arith

pub count_idle-le : (ws : List Worker) → count_idle ws ≤ length ws
count_idle-le [] = omega arith
count_idle-le (w ∷ ws) = omega (arith, idle_le_one w, count_idle-le ws)

pub count_idle-lt :
    (ws : List Worker) (i : ℕ) → get_elem? ws i ≡ some working → count_idle ws < length ws
count_idle-lt [] i e = cc
count_idle-lt (w ∷ ws) zero e =
    let same : w ≡ working = cc in rw same (omega (arith, count_idle-le ws))
count_idle-lt (w ∷ ws) (suc i) e = omega (arith, idle_le_one w, count_idle-lt ws i e)

pub count_idle-replicate : (n : ℕ) → count_idle (replicate n working) ≡ 0
count_idle-replicate zero = refl
count_idle-replicate (suc n) = omega (arith, count_idle-replicate n)

pub finished-replicate : (n i : ℕ) → get_elem? (replicate n working) i ≢ some finished
finished-replicate zero i e = cc
finished-replicate (suc n) zero e = cc
finished-replicate (suc n) (suc i) e = finished-replicate n i e
