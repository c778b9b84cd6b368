-- ===== src/MtQueue/Room.antt =====
-- When the calls that add elements return, and what the calls that take one do then.
use lunchbox.Prelude.{
  ℕ, ◌+◌, ◌-◌, ◌≤◌, ◌<◌, ◌≡◌, refl, ap, ◌⊎◌, inl, inr, true, false, List, [], ◌∷◌, ◌++◌, none, some,
  ltb, leb, length, size_mod, sub_size, arith, le-cases,
}
use lunchbox.MtQueue.{
  MtQueue, Done, waits, fails, returns, push, push_all, push_front, push_front_all, pop, try_pop,
  timed_pop, get_front,
}

-- A queue is never longer than its maximum, which is a `size_t`.
pub record IsValid {ℓ} {A : Type ℓ} (q : MtQueue A) : Type 0 where
  pub bounded : length q.items ≤ q.max_size
  pub fits : q.max_size < size_mod

-- The unsigned subtraction in the condition of a push of many does not wrap.
room_left : (m n : ℕ) → n ≤ m → m < size_mod → sub_size m n ≡ m - n
room_left m n h small = omega arith

abbrev pub done {ℓ} : {A : Type ℓ} → List A → ℕ → Done (Unit {0}) A
done items max = record {
  value = tt;
  queue = record { items = items; max_size = max };
  notified = true;
}

module _ {ℓ} {A : Type ℓ} where
  -- A push of many into a valid queue appends the elements exactly when all of them fit. It waits
  -- when they do not fit now, and its assertion fails when they can never fit. `pushFront` does the
  -- same in front of the queue.
  pub push_all-cases :
      (q : MtQueue A) (xs : List A)
      → IsValid q
      → ((length q.items + length xs ≤ q.max_size)
          × (push_all q xs ≡ returns (done (q.items ++ xs) q.max_size))
          × (push_front_all q xs ≡ returns (done (xs ++ q.items) q.max_size)))
        ⊎ ((q.max_size < length q.items + length xs)
            × (length xs ≤ q.max_size)
            × (push_all q xs ≡ waits)
            × (push_front_all q xs ≡ waits))
        ⊎ ((q.max_size < length xs) × (push_all q xs ≡ fails) × (push_front_all q xs ≡ fails))
  unfolding push_all push_front_all
  push_all-cases q xs v = elim (le-cases (length xs) q.max_size) [
    | inr never ↦
        let t : leb (length xs) q.max_size ≡ false = ground arith in inr (inr (never, rw t, rw t))
    | inl once ↦
        let t : leb (length xs) q.max_size ≡ true = ground arith in
        let room : sub_size q.max_size (length q.items) ≡ q.max_size - length q.items =
          room_left q.max_size (length q.items) v.bounded v.fits in
        elim (le-cases (length xs) (q.max_size - length q.items)) [
          | inl now ↦
              let u : leb (length xs) (q.max_size - length q.items) ≡ true = ground arith in
              inl (omega (arith, v.bounded), rw (t, room, u), rw (t, room, u))
          | inr later ↦
              let u : leb (length xs) (q.max_size - length q.items) ≡ false = ground arith in
              inr (inl (omega arith, once, rw (t, room, u), rw (t, room, u)))
        ]
  ]

  -- `push` and `pushFront` of one element return exactly when the queue is not full, and add it at
  -- the end and in front.
  pub push-cases :
      (q : MtQueue A) (x : A)
      → ((length q.items < q.max_size)
          × (push q x ≡ returns (done (q.items ++ x ∷ []) q.max_size))
          × (push_front q x ≡ returns (done (x ∷ q.items) q.max_size)))
        ⊎ ((q.max_size ≤ length q.items) × (push q x ≡ waits) × (push_front q x ≡ waits))
  unfolding push push_front
  push-cases q x = elim (le-cases q.max_size (length q.items)) [
    | inl full ↦
        let t : ltb (length q.items) q.max_size ≡ false = ground arith in inr (full, rw t, rw t)
    | inr room ↦
        let t : ltb (length q.items) q.max_size ≡ true = ground arith in inl (room, rw t, rw t)
  ]

  -- What the calls that take one element do with a queue.
  abbrev pub TakesFront : MtQueue A → Type ℓ
  TakesFront q =
      ((q.items ≡ [])
        × (pop q ≡ waits)
        × (try_pop q ≡ record { value = none; queue = q; notified = false })
        × (timed_pop q ≡ record { value = none; queue = q; notified = false })
        × (get_front q ≡ none))
      ⊎ ((x : A) × (xs : List A) × (q.items ≡ x ∷ xs)
          × (pop q
              ≡ returns (record { value = x; queue = record q { items = xs }; notified = true }))
          × (try_pop q
              ≡ record { value = some x; queue = record q { items = xs }; notified = true })
          × (timed_pop q
              ≡ record { value = some x; queue = record q { items = xs }; notified = true })
          × (get_front q ≡ some x))

  takes_front : (items : List A) (m : ℕ) → TakesFront (record { items = items; max_size = m })
  unfolding pop try_pop timed_pop get_front
  takes_front [] m = inl (refl, refl, refl, refl, refl)
  takes_front (x ∷ xs) m = inr (x, xs, refl, refl, refl, refl, refl)

  -- On an empty queue `pop` waits, and `tryPop`, `timedPop` and `getFront` answer false and change
  -- nothing. Otherwise all four return the front element, and the first three take it out.
  pub pop-cases : (q : MtQueue A) → TakesFront q
  pop-cases q = takes_front q.items q.max_size

  -- A queue that can hold an element never blocks both its sides: a push returns or a pop does.
  pub push-pop :
      (q : MtQueue A) (x : A)
      → 0 < q.max_size
      → ((d : Done (Unit {0}) A) × (push q x ≡ returns d)) ⊎ ((d : Done A A) × (pop q ≡ returns d))
  push-pop q x some_room = elim (push-cases q x) [
    | inl room ↦ inl (_, room.1)
    | inr full ↦ elim (pop-cases q) [
      | inl nothing ↦ absurd (omega (arith, full.0, ap length nothing.0, some_room))
      | inr some_left ↦ inr (_, some_left.3)
    ]
  ]
