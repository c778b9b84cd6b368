-- ===== src/MtQueue/Ranges.antt =====
-- What the calls that never wait for room take from the queue.
use lunchbox.Prelude.{
  ℕ, zero, suc, ◌≤◌, ◌<◌, ◌≡◌, refl, sym, ap, ◌∙◌, ◌⊎◌, inl, inr, true, false, List, [], ◌∷◌, ◌++◌,
  some, ltb, length, take, drop, length-take, take-append-drop, append_assoc, append-nil, min,
  arith, Bool-cases, le-cases,
}
use lunchbox.MtQueue.{MtQueue, Done, min_size, pop_loop, try_pop_range, timed_pop_range}

min_size-min : (a b : ℕ) → min_size a b ≡ min a b
min_size-min a b = ground arith

module _ {ℓ} {A : Type ℓ} where
  -- The loop moves as many elements as it is asked for, while there are so many.
  pop_loop-take :
      (n : ℕ) (result items : List A)
      → n ≤ length items
      → pop_loop n result items ≡ some (result ++ take n items, drop n items)
  unfolding pop_loop
  pop_loop-take zero result items h = ap (λ r. some (r, items)) (sym (append-nil result))
  pop_loop-take (suc n) result [] h = absurd (omega arith)
  pop_loop-take (suc n) result (x ∷ items) h =
      pop_loop-take n (result ++ x ∷ []) items (omega arith)
      ∙ ap (λ r. some (r, drop n items)) (append_assoc result (x ∷ []) (take n items))

  pub none_asked :
      (q : MtQueue A) (n : ℕ) → ltb 0 (min n (length q.items)) ≡ false → min n (length q.items) ≡ 0
  none_asked q n t = ground arith

  -- `tryPop(num, result)` never reads an empty queue. It appends the first `num` elements, or all
  -- where there are fewer, to `result` and takes them out. It notifies exactly when that
  -- is at least one.
  pub try_pop_range-take :
      (q : MtQueue A) (n : ℕ) (result : List A)
      → (d : Done (List A) A) × (try_pop_range q n result ≡ some d)
        × (d.value ≡ result ++ take (min n (length q.items)) q.items)
        × (d.queue ≡ record q { items = drop (min n (length q.items)) q.items })
        × (d.notified ≡ ltb 0 (min n (length q.items)))
  unfolding try_pop_range
  try_pop_range-take q n result = elim (Bool-cases (ltb 0 (min n (length q.items)))) [
    | inl some_left ↦ (
      record {
        value = result ++ take (min n (length q.items)) q.items;
        queue = record q { items = drop (min n (length q.items)) q.items };
        notified = true;
      },
      rw (
        min_size-min n (length q.items),
        some_left,
        pop_loop-take (min n (length q.items)) result q.items (omega arith),
      ),
      refl,
      refl,
      sym some_left,
    )
    | inr no_more ↦ (
      record { value = result; queue = q; notified = false },
      rw (min_size-min n (length q.items), no_more),
      rw (none_asked q n no_more) (sym (append-nil result)),
      rw (none_asked q n no_more),
      sym no_more,
    )
  ]

  -- `timedPopRange` behind its wait: with fewer than `minimum` elements it returns none and changes
  -- nothing; else it returns the first `maximum`, or all where there are fewer, and takes them out.
  pub timed_pop_range-take :
      (q : MtQueue A) (minimum maximum : ℕ)
      → ((length q.items < minimum)
          × (timed_pop_range q minimum maximum
              ≡ record { value = []; queue = q; notified = false }))
        ⊎ ((minimum ≤ length q.items)
            × (length (timed_pop_range q minimum maximum).value ≡ min maximum (length q.items))
            × ((timed_pop_range q minimum maximum).value
                  ++ (timed_pop_range q minimum maximum).queue.items
                ≡ q.items)
            × ((timed_pop_range q minimum maximum).queue.max_size ≡ q.max_size)
            × ((timed_pop_range q minimum maximum).notified ≡ true))
  unfolding timed_pop_range
  timed_pop_range-take q minimum maximum = elim (le-cases minimum (length q.items)) [
    | inl enough ↦
        let t : ltb (length q.items) minimum ≡ false = ground arith in
        inr (
          enough,
          rw (t, min_size-min maximum (length q.items))
              (omega (arith, length-take (min maximum (length q.items)) q.items)),
          rw (t, min_size-min maximum (length q.items))
              (take-append-drop (min maximum (length q.items)) q.items),
          rw t refl,
          rw t refl,
        )
    | inr few ↦ let t : ltb (length q.items) minimum ≡ true = ground arith in inl (few, rw t)
  ]
