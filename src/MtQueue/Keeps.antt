-- ===== src/MtQueue/Keeps.antt =====
-- What one call keeps, and that those which take elements do.
use lunchbox.Prelude.{
  ℕ, ◌<◌, ◌≡◌, refl, sym, ap, ◌∙◌, subst, inl, inr, false, List, [], ◌∷◌, ◌++◌, append-nil, Option,
  none, some, length, length-append, take, drop, take-append-drop, min, size_mod, arith,
}
use lunchbox.MtQueue.{MtQueue, timed_pop_range}
use lunchbox.MtQueue.Room.{IsValid, pop-cases}
use lunchbox.MtQueue.Ranges.{none_asked, try_pop_range-take, timed_pop_range-take}
use lunchbox.MtQueue.Calls.{
  Call, Effect, run, added, IsFifo, call_assign, call_set_max_size, call_pop, call_timed_pop,
  call_try_pop, call_timed_pop_range, call_try_pop_range,
}

-- A property of what there is, if there is anything.
abbrev pub Holding {ℓ κ} : {B : Type ℓ} → (B → Type κ) → Option B → Type κ
Holding P none = Unit
Holding P (some b) = P b

pub holding {ℓ κ} :
    {B : Type ℓ} (P : B → Type κ) (o : Option B) (b : B) → Holding P o → o ≡ some b → P b
holding P o b h e = subst (Holding P) e h

module _ {ℓ} {A : Type ℓ} where
  -- The queue that is assigned is valid, and a new maximum is a `size_t`.
  abbrev pub IsSound : Call A → Type 0
  IsSound (call_assign from) = IsValid from
  IsSound (call_set_max_size m) = m < size_mod
  IsSound c = Unit {0}

  -- What a call that returns keeps.
  pub record Keeps (c : Call A) (q : MtQueue A) (e : Effect A) : Type ℓ where
    pub valid : IsSound c → IsValid q → IsValid e.queue
    pub quiet : e.notified ≡ false → e.queue ≡ q
    pub fifo : IsFifo c → e.taken ++ e.queue.items ≡ q.items ++ added c

  shorter :
      (xs items : List A) (q : MtQueue A)
      → xs ++ items ≡ q.items
      → IsValid q
      → IsValid (record q { items = items })
  shorter xs items q e v = record {
    bounded = omega (arith, ap length e, length-append xs items, v.bounded);
    fits = v.fits;
  }

  pub run_pop : (q : MtQueue A) → Holding (Keeps call_pop q) (run call_pop q)
  unfolding run
  run_pop q = elim (pop-cases q) [
    | inl nothing ↦ rw nothing.1 tt
    | inr front ↦ rw front.3 (record {
      valid = λ s v. shorter (front.0 ∷ []) front.1 q (sym front.2) v;
      quiet = λ silent. cc;
      fifo = λ f. sym (front.2) ∙ sym (append-nil q.items);
    })
  ]

  pub run_try_pop : (q : MtQueue A) → Holding (Keeps call_try_pop q) (run call_try_pop q)
  unfolding run
  run_try_pop q = elim (pop-cases q) [
    | inl nothing ↦
        rw nothing.2 (record {
          valid = λ s v. v;
          quiet = λ silent. refl;
          fifo = λ f. sym (append-nil q.items);
        })
    | inr front ↦ rw front.4 (record {
      valid = λ s v. shorter (front.0 ∷ []) front.1 q (sym front.2) v;
      quiet = λ silent. cc;
      fifo = λ f. sym (front.2) ∙ sym (append-nil q.items);
    })
  ]

  pub run_timed_pop : (q : MtQueue A) → Holding (Keeps call_timed_pop q) (run call_timed_pop q)
  unfolding run
  run_timed_pop q = elim (pop-cases q) [
    | inl nothing ↦
        rw nothing.3 (record {
          valid = λ s v. v;
          quiet = λ silent. refl;
          fifo = λ f. sym (append-nil q.items);
        })
    | inr front ↦ rw front.5 (record {
      valid = λ s v. shorter (front.0 ∷ []) front.1 q (sym front.2) v;
      quiet = λ silent. cc;
      fifo = λ f. sym (front.2) ∙ sym (append-nil q.items);
    })
  ]

  pub run_try_pop_range :
      (n : ℕ) (q : MtQueue A)
      → Holding (Keeps (call_try_pop_range n) q) (run (call_try_pop_range n) q)
  unfolding run
  run_try_pop_range n q =
      let (d, e, value, queue, quiet) = try_pop_range-take q n [] in
      rw (run, e)
        (record {
          valid = λ s v.
              rw queue (shorter (take m q.items) (drop m q.items) q (take-append-drop m q.items) v);
          quiet = λ silent.
              let none_taken : m ≡ 0 = none_asked q n (sym quiet ∙ silent) in
              queue ∙ rw none_taken refl;
          fifo = λ f. rw (value, queue) (take-append-drop m q.items ∙ sym (append-nil q.items));
        })
    where
      m : ℕ
      m = min n (length q.items)

  pub run_timed_pop_range :
      (mn mx : ℕ) (q : MtQueue A)
      → Holding (Keeps (call_timed_pop_range mn mx) q) (run (call_timed_pop_range mn mx) q)
  unfolding run
  run_timed_pop_range mn mx q = elim (timed_pop_range-take q mn mx) [
    | inl few ↦
        rw (few.1) (record {
          valid = λ s v. v;
          quiet = λ silent. refl;
          fifo = λ f. sym (append-nil q.items);
        })
    | inr enough ↦ record {
      valid = λ s v. record {
        bounded = omega (
          arith,
          v.bounded,
          ap length enough.2,
          enough.3,
          length-append (timed_pop_range q mn mx).value (timed_pop_range q mn mx).queue.items,
        );
        fits = rw (enough.3) v.fits;
      };
      quiet = λ silent. absurd (cc);
      fifo = λ f. enough.2 ∙ sym (append-nil q.items);
    }
  ]
