-- ===== src/MtQueue/Barrier.antt =====
-- `popBarrier` of lunchbox/mtQueue.ipp: worker threads of one group take elements until all of them
-- wait at an empty queue.
pub mod Idle
pub mod Wake
pub mod Workers
use lunchbox.Prelude.{
  ℕ, zero, suc, ◌+◌, ◌-◌, ◌≡◌, Bool, true, false, not, ◌||◌, List, [], ◌∷◌, Option, none, some,
  ◌==◌, leb, ltb, if◌then◌else◌, length, get_elem?, set, replicate,
}
use lunchbox.MtQueue.{MtQueue, Done, Outcome, waits, fails, returns, push}

-- `MTQueue::Group`
pub record Group : Type 0 where
  pub height : ℕ
  pub waiting : ℕ

unfoldable pub new_group : ℕ → Group
new_group height = record { height = height; waiting = 0 }

unfoldable pub set_height : ℕ → Group → Group
set_height height g = record g { height = height }

-- `popBarrier` up to its wait: the assertion on the height, and `++barrier.waiting_`.
unfoldable pub enter : Group → Outcome Group
enter g = if ltb 0 g.height then returns (record g { waiting = g.waiting + 1 }) else fails

-- What `popBarrier` leaves: the element or false, the queue and the group.
pub record Woken {ℓ} (A : Type ℓ) : Type ℓ where
  pub value : Option A
  pub queue : MtQueue A
  pub group : Group

module _ {ℓ} {A : Type ℓ} where
  wake_at : List A → ℕ → Group → Outcome (Woken A)
  wake_at [] max g =
      if leb g.height g.waiting
      then (if g.waiting == g.height
          then returns
              (record { value = none; queue = record { items = []; max_size = max }; group = g })
          else fails)
      else waits
  wake_at (x ∷ xs) max g = returns (record {
    value = some x;
    queue = record { items = xs; max_size = max };
    group = record g { waiting = g.waiting - 1 };
  })

  -- `popBarrier` from its wait on.
  unfoldable pub wake : MtQueue A → Group → Outcome (Woken A)
  unfolding wake_at
  wake q g = wake_at q.items q.max_size g

-- A thread of the group works, waits in `popBarrier`, or has got false from it.
pub data Worker : Type 0 where
  working : Worker
  in_barrier : Worker
  finished : Worker

pub record Crew {ℓ} (A : Type ℓ) : Type ℓ where
  pub workers : List Worker
  pub queue : MtQueue A
  pub group : Group

-- A step of one thread: a working one pushes an element or calls `popBarrier`, and one that waits
-- there wakes up when its condition holds.
pub data Step {ℓ} {A : Type ℓ} : Crew A → Crew A → Type ℓ where
  pushes :
      (c : Crew A) (i : ℕ) (x : A) (d : Done (Unit {0}) A)
      → get_elem? c.workers i ≡ some working
      → push c.queue x ≡ returns d
      → Step c (record c { queue = d.queue })
  enters :
      (c : Crew A) (i : ℕ) (g : Group)
      → get_elem? c.workers i ≡ some working
      → enter c.group ≡ returns g
      → Step c (record c { workers = set c.workers i in_barrier; group = g })
  takes :
      (c : Crew A) (i : ℕ) (x : A) (q : MtQueue A) (g : Group)
      → get_elem? c.workers i ≡ some in_barrier
      → wake c.queue c.group ≡ returns (record { value = some x; queue = q; group = g })
      → Step c (record { workers = set c.workers i working; queue = q; group = g })
  gives_up :
      (c : Crew A) (i : ℕ) (q : MtQueue A) (g : Group)
      → get_elem? c.workers i ≡ some in_barrier
      → wake c.queue c.group ≡ returns (record { value = none; queue = q; group = g })
      → Step c (record { workers = set c.workers i finished; queue = q; group = g })

-- The steps from a group as high as it has workers, all of which work.
pub data Reached {ℓ} {A : Type ℓ} (n : ℕ) : Crew A → Type ℓ where
  starts :
      (q : MtQueue A)
      → Reached n (record { workers = replicate n working; queue = q; group = new_group n })
  steps : (c d : Crew A) → Reached n c → Step c d → Reached n d
