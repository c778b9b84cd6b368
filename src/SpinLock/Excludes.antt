-- ===== src/SpinLock/Excludes.antt =====
-- However the threads interleave, one writes alone or only readers have the lock.
use lunchbox.Prelude.{
  ℕ, zero, suc, ◌<◌, ◌≡◌, refl, sym, ap, ◌∙◌, ◌⊎◌, inl, inr, true, some, get_elem?, sum_of-set,
  sum_of-ge, sum_of-replicate, arith,
}
use lunchbox.SpinLock.{
  pos, add_one, sub_one, writelocked, unlocked, try_set, unset, expected_read, swap_read,
  swap_unread, is_above_zero, is_set_write, is_set_read, outside, entering_read, writing, reading,
  leaving_read, System, Step, sets, set_fails, unsets, loads_read, swaps_read, read_fails,
  loads_unread, swaps_unread, unread_fails, Reached, starts, steps,
}
use lunchbox.SpinLock.Swaps.{
  writes, reads, writers, readers, swapped, kept, Sound, moved, still_expects, pos-eq, pos-ne,
  sub_one-pos, unset_lem, same-Shape, expected_read-ne, entered, none_enters,
}

Step-Sound : (s t : System) → Step s t → Sound s → Sound t
unfolding try_set swap_read swap_unread
Step-Sound _ _ (sets s i n a h) k =
    let (free, now) = swapped unlocked writelocked s.state n h in
    let w = sum_of-set writes s.threads i outside writing a in
    let r = sum_of-set reads s.threads i outside writing a in
    record {
      shape = elim k.shape [
        | inl l ↦
            let none_read = pos-eq 0 (readers s) (sym free ∙ l.0) in
            inr (now, omega (arith, w, l.1), omega (arith, r, none_read))
        | inr l ↦ absurd (pos-ne 0 0 (sym free ∙ l.0))
      ];
      expects = still_expects s i outside writing k a (λ e u. cc);
    }
Step-Sound _ _ (set_fails s i n a h) k = record {
  shape = rw (kept unlocked writelocked s.state n h) k.shape;
  expects = k.expects;
}
Step-Sound _ _ (unsets s i n a h) k =
    let (shut, now) = unset_lem s.state n h in
    let w = sum_of-set writes s.threads i writing outside a in
    let r = sum_of-set reads s.threads i writing outside a in
    record {
      shape = elim k.shape [
        | inl l ↦ absurd (pos-ne (readers s) 0 (sym l.0 ∙ shut))
        | inr l ↦ inl (now ∙ ap pos (omega (arith, r, l.2)), omega (arith, w, l.1))
      ];
      expects = still_expects s i writing outside k a (λ e u. cc);
    }
Step-Sound _ _ (loads_read s i a) k = record {
  shape = same-Shape s i outside (entering_read (expected_read s.state)) a refl refl k;
  expects = λ j e f.
      elim (moved s.threads i j outside (entering_read (expected_read s.state)) (entering_read e) a
        f) [
          | inl u ↦ λ v. expected_read-ne s.state (readers s) (writers s) k.shape (entered u ∙ v)
          | inr v ↦ k.expects j e v
        ];
}
Step-Sound _ _ (swaps_read s i e n a h) k =
    let (was, now) = swapped e (add_one e) s.state n h in
    let w = sum_of-set writes s.threads i (entering_read e) reading a in
    let r = sum_of-set reads s.threads i (entering_read e) reading a in
    record {
      shape = elim k.shape [
        | inl l ↦
            inl
              (now ∙ ap add_one (sym was ∙ l.0) ∙ ap pos (omega (arith, r)), omega (arith, w, l.1))
        | inr l ↦ absurd (k.expects i e a (sym was ∙ l.0))
      ];
      expects = still_expects s i (entering_read e) reading k a (λ x u. cc);
    }
Step-Sound _ _ (read_fails s i e n a h) k = record {
  shape =
      rw (kept e (add_one e) s.state n h) (same-Shape s i (entering_read e) outside a refl refl k);
  expects = still_expects s i (entering_read e) outside k a (λ x u. cc);
}
Step-Sound _ _ (loads_unread s i a) k = record {
  shape = same-Shape s i reading (leaving_read s.state) a refl refl k;
  expects = still_expects s i reading (leaving_read s.state) k a (λ x u. cc);
}
Step-Sound _ _ (swaps_unread s i e n a h) k =
    let (was, now) = swapped e (sub_one e) s.state n h in
    let w = sum_of-set writes s.threads i (leaving_read e) outside a in
    let r = sum_of-set reads s.threads i (leaving_read e) outside a in
    let one = sum_of-ge reads s.threads i (leaving_read e) a in
    record {
      shape = elim k.shape [
        | inl l ↦ inl (
          now
              ∙ ap sub_one (sym was ∙ l.0)
              ∙ sub_one-pos (readers s) (omega (arith, one))
              ∙ ap pos (omega (arith, r)),
          omega (arith, w, l.1),
        )
        | inr l ↦ absurd (omega (arith, one, l.2))
      ];
      expects = still_expects s i (leaving_read e) outside k a (λ x u. cc);
    }
Step-Sound _ _ (unread_fails s i e n a h) k = record {
  shape =
      rw (kept e (sub_one e) s.state n h) (same-Shape s i (leaving_read e) reading a refl refl k);
  expects = still_expects s i (leaving_read e) reading k a (λ x u. cc);
}

Reached-Sound : (n : ℕ) (s : System) → Reached n s → Sound s
Reached-Sound n _ starts = record {
  shape = inl (
    ap pos (sym (sum_of-replicate reads n outside refl)),
    sum_of-replicate writes n outside refl,
  );
  expects = λ i e f. absurd (none_enters n i e f);
}
Reached-Sound n _ (steps s t r st) = Step-Sound s t st (Reached-Sound n s r)

above_zero : (m : ℕ) → 0 < m → is_above_zero (pos m) ≡ true
above_zero zero h = absurd (omega arith)
above_zero (suc m) h = refl

-- However the atomic accesses of the threads interleave: at most one thread has the lock to write,
-- and while one has, none has it to read.
pub writers-alone :
    (n : ℕ) (s : System) → Reached n s → (writers s ≡ 0) ⊎ ((writers s ≡ 1) × (readers s ≡ 0))
writers-alone n s r = elim (Reached-Sound n s r).shape [ inl l ↦ inl l.1 | inr l ↦ inr (l.1, l.2) ]

-- However the atomic accesses of the threads interleave, the assertions hold: the number says that
-- the lock is set for writing while a thread writes, so that its `unset` passes, and that it is set
-- for reading while a thread reads.
pub set-held :
    (n : ℕ) (s : System) (i : ℕ)
    → Reached n s
    → (get_elem? s.threads i ≡ some writing) ⊎ (get_elem? s.threads i ≡ some reading)
    → ((get_elem? s.threads i ≡ some writing)
        × (is_set_write s.state ≡ true)
        × (unset s.state ≡ some unlocked))
      ⊎ ((get_elem? s.threads i ≡ some reading) × (is_set_read s.state ≡ true))
unfolding unset is_set_write is_set_read
set-held n s i r (inl a) =
    let one = sum_of-ge writes s.threads i writing a in
    elim (Reached-Sound n s r).shape [
      | inl l ↦ absurd (omega (arith, one, l.1))
      | inr l ↦ inl (a, rw l.0 refl, rw l.0 refl)
    ]
set-held n s i r (inr a) =
    let one = sum_of-ge reads s.threads i reading a in
    elim (Reached-Sound n s r).shape [
      | inl l ↦ inr (a, rw l.0 (above_zero (readers s) (omega (arith, one))))
      | inr l ↦ absurd (omega (arith, one, l.2))
    ]
