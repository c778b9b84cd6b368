-- ===== src/MtQueue/Adding.antt =====
-- The calls that add elements keep what a call keeps.
use lunchbox.Prelude.{
  ℕ, ◌+◌, ◌≤◌, ◌<◌, ◌≡◌, refl, inl, inr, true, List, [], ◌∷◌, leb, length, length-append, size_mod,
  sub_size, arith, Bool-cases,
}
use lunchbox.MtQueue.{MtQueue, push_all, push_front_all}
use lunchbox.MtQueue.Room.{push-cases}
use lunchbox.MtQueue.Calls.{run, call_push, call_push_all, call_push_front, call_push_front_all}
use lunchbox.MtQueue.Keeps.{Holding, Keeps}

fits_now : (m n k : ℕ) → n ≤ m → m < size_mod → leb k (sub_size m n) ≡ true → n + k ≤ m
fits_now m n k h small t = ground arith

module _ {ℓ} {A : Type ℓ} where
  pub run_push : (x : A) (q : MtQueue A) → Holding (Keeps (call_push x) q) (run (call_push x) q)
  unfolding run
  run_push x q = elim (push-cases q x) [
    | inr full ↦ rw full.1 tt
    | inl room ↦ rw room.1 (record {
      valid = λ s v. record {
        bounded = omega (arith, room.0, length-append q.items (x ∷ []));
        fits = v.fits;
      };
      quiet = λ silent. cc;
      fifo = λ f. refl;
    })
  ]

  pub run_push_all :
      (xs : List A) (q : MtQueue A)
      → Holding (Keeps (call_push_all xs) q) (run (call_push_all xs) q)
  unfolding run push_all
  run_push_all xs q = elim (Bool-cases (leb (length xs) q.max_size)) [
    | inr never ↦ rw never tt
    | inl once ↦ elim (Bool-cases (leb (length xs) (sub_size q.max_size (length q.items)))) [
      | inr later ↦ rw (once, later) tt
      | inl now ↦
          rw (once, now)
            (record {
              valid = λ s v. record {
                bounded = omega (
                  arith,
                  length-append q.items xs,
                  fits_now q.max_size (length q.items) (length xs) v.bounded v.fits now,
                );
                fits = v.fits;
              };
              quiet = λ silent. cc;
              fifo = λ f. refl;
            })
    ]
  ]

  pub run_push_front :
      (x : A) (q : MtQueue A) → Holding (Keeps (call_push_front x) q) (run (call_push_front x) q)
  unfolding run
  run_push_front x q = elim (push-cases q x) [
    | inr full ↦ rw full.2 tt
    | inl room ↦ rw room.2 (record {
      valid = λ s v. record { bounded = omega (arith, room.0); fits = v.fits };
      quiet = λ silent. cc;
      fifo = λ f. absurd f;
    })
  ]

  pub run_push_front_all :
      (xs : List A) (q : MtQueue A)
      → Holding (Keeps (call_push_front_all xs) q) (run (call_push_front_all xs) q)
  unfolding run push_front_all
  run_push_front_all xs q = elim (Bool-cases (leb (length xs) q.max_size)) [
    | inr never ↦ rw never tt
    | inl once ↦ elim (Bool-cases (leb (length xs) (sub_size q.max_size (length q.items)))) [
      | inr later ↦ rw (once, later) tt
      | inl now ↦
          rw (once, now)
            (record {
              valid = λ s v. record {
                bounded = omega (
                  arith,
                  length-append xs q.items,
                  fits_now q.max_size (length q.items) (length xs) v.bounded v.fits now,
                );
                fits = v.fits;
              };
              quiet = λ silent. cc;
              fifo = λ f. absurd f;
            })
    ]
  ]
