-- ===== src/LfVector/Erase.antt =====
-- `erase` moves the later elements down by one place.
use lunchbox.Prelude.{
  ℕ, zero, suc, ◌+◌, ◌-◌, ◌≤◌, ◌<◌, ◌≡◌, refl, sym, ap, ◌∙◌, Bool, true, false, List, ◌++◌, Option,
  some, ltb, leb, ◌==◌, if◌then◌else◌, size_mod, length, get_elem?, take, drop, length-take,
  length-drop, length-append, get_elem?-take, get_elem?-drop, get_elem?-append, get_elem?-some,
  arith, inl, inr, le-cases, ◌⊎◌, subst, ◌&&◌,
}
use lunchbox.LfVector.{LfVector, get, put, trim, shift_down, remove_at, erase}
use lunchbox.LfVector.Slots.{IsBacked, Holds, size-lt-mod, place, get-place}
use lunchbox.LfVector.Writes.{put-Written}
use lunchbox.LfVector.Removal.{finish, get-slots}

-- Whether an element is one of the `c` that a shift replaces.
abbrev shifted : ℕ → ℕ → ℕ → Bool
shifted pos c j = leb pos j && ltb j (pos + c)

none_shifted : (pos j : ℕ) → shifted pos zero j ≡ false
none_shifted pos j = ground arith

module _ {ℓ} {A : Type ℓ} where
  -- An element with an array can be read.
  get-backed :
      (v : LfVector A) (m i : ℕ)
      → IsBacked v.slots m
      → m < size_mod
      → i < m
      → (x : A) × (get v i ≡ some x)
  get-backed v m i b small lt =
      let (s, k, p) = place i (omega arith) in
      let (a, e) = b.allocated s (omega (arith, p.value)) in
      let (x, f) = get_elem?-some a k (rw (b.arrays s a e) p.small) in (x, get-place v p ∙ rw e f)

  -- What moving `c` elements behind `pos` down by one makes of a vector.
  record Shifted (v : LfVector A) (c pos m : ℕ) (w : LfVector A) : Type ℓ where
    same_size : w.size ≡ v.size
    backed : IsBacked w.slots m
    reads : (j : ℕ) → j + 1 < m → get w j ≡ (if shifted pos c j then get v (j + 1) else get v j)

  -- One round of the shift, and the rest from the next place on.
  one_down :
      (v : LfVector A) (c pos m : ℕ) (x : A)
      → get v (pos + 1) ≡ some x
      → (r : ℕ → Option A) → ((i : ℕ) → i < m → r i ≡ (if pos == i then some x else get v i))
      → (j : ℕ) → j + 1 < m
      → (if shifted (pos + 1) c j then r (j + 1) else r j)
        ≡ (if shifted pos (suc c) j then get v (j + 1) else get v j)
  one_down v c pos m x e r h j k = elim (le-cases pos j) [
    | inr below ↦
        let t1 : shifted (pos + 1) c j ≡ false = ground arith in
        let t2 : shifted pos (suc c) j ≡ false = ground arith in
        let ne : (pos == j) ≡ false = ground arith in rw (t1, t2) (h j (omega arith) ∙ rw ne)
    | inl from ↦ elim (le-cases j pos) [
      | inl here ↦
          let same : pos ≡ j = omega arith in
          let t1 : shifted (pos + 1) c j ≡ false = ground arith in
          let t2 : shifted pos (suc c) j ≡ true = ground arith in
          let eq : (pos == j) ≡ true = ground arith in
          rw (t1, t2) (h j (omega arith) ∙ rw eq (sym e ∙ ap (λ i. get v (i + 1)) same))
      | inr past ↦ elim (le-cases (pos + suc c) j) [
        | inl over ↦
            let t1 : shifted (pos + 1) c j ≡ false = ground arith in
            let t2 : shifted pos (suc c) j ≡ false = ground arith in
            let ne : (pos == j) ≡ false = ground arith in rw (t1, t2) (h j (omega arith) ∙ rw ne)
        | inr within ↦
            let t1 : shifted (pos + 1) c j ≡ true = ground arith in
            let t2 : shifted pos (suc c) j ≡ true = ground arith in
            let ne : (pos == j + 1) ≡ false = ground arith in
            rw (t1, t2) (h (j + 1) (omega arith) ∙ rw ne)
      ]
    ]
  ]

module _ {ℓ} {A : Type ℓ} (n : ℕ) (raw init : A) where
  shift_down-Shifted :
      (c pos m : ℕ) (v : LfVector A)
      → IsBacked v.slots m
      → m < size_mod
      → pos + c < m
      → (w : LfVector A) × (shift_down n raw init c pos v ≡ some w) × Shifted v c pos m w
  unfolding shift_down
  shift_down-Shifted zero pos m v b small lt =
      (v, refl, record { same_size = refl; backed = b; reads = λ j h. rw (none_shifted pos j) })
  shift_down-Shifted (suc c) pos m v b small lt =
      let (x, e) = get-backed v m (pos + 1) b small (omega arith) in
      let (u, wr) = put-Written v pos m x b small (omega arith) in
      let (w, f, sh) = shift_down-Shifted c (pos + 1) m u wr.backed small (omega arith) in
      (
        w,
        rw (e, wr.done) f,
        record {
          same_size = sh.same_size ∙ wr.same_size;
          backed = sh.backed;
          reads = λ j h.
              sh.reads j h ∙ one_down v c pos m x e (get u) (λ i k. wr.reads i (omega arith)) j h;
        },
      )

  abbrev pub without : ℕ → List A → List A
  without pos xs = take pos xs ++ drop (pos + 1) xs

  length-without :
      (pos : ℕ) (xs : List A) → pos < length xs → length (without pos xs) + 1 ≡ length xs
  length-without pos xs lt = omega (
    arith,
    length-append (take pos xs) (drop (pos + 1) xs),
    length-take pos xs,
    length-drop (pos + 1) xs,
  )

  get_elem?-without :
      (pos : ℕ) (xs : List A) (j : ℕ)
      → pos < length xs
      → get_elem? (without pos xs) j ≡ (if leb pos j then get_elem? xs (j + 1) else get_elem? xs j)
  get_elem?-without pos xs j lt = elim (le-cases pos j) [
    | inl from ↦
        let t1 : leb pos j ≡ true = ground arith in
        let t2 : ltb j (length (take pos xs)) ≡ false = ground (arith, length-take pos xs) in
        get_elem?-append (take pos xs) (drop (pos + 1) xs) j
        ∙ rw (t1, t2)
            (get_elem?-drop (pos + 1) (j - length (take pos xs)) xs
              ∙ ap (get_elem? xs) (omega (arith, length-take pos xs)))
    | inr below ↦
        let t1 : leb pos j ≡ false = ground arith in
        let t2 : ltb j (length (take pos xs)) ≡ true = ground (arith, length-take pos xs) in
        get_elem?-append (take pos xs) (drop (pos + 1) xs) j
        ∙ rw (t1, t2) (get_elem?-take pos j xs below)
  ]

  removed :
      (v u : LfVector A) (xs : List A) (pos : ℕ)
      → Holds n v xs
      → Shifted (record v { size = v.size - 1 }) (v.size - 1 - pos) pos v.size u
      → pos < v.size
      → (w : LfVector A) × (put u (v.size - 1) init ≡ some w) × Holds n (trim n w) (without pos xs)
  removed v u xs pos h sh lt =
      subst (λ k. (w : LfVector A) × (put u k init ≡ some w) × Holds n (trim n w) (without pos xs))
        sh.same_size
        (finish n raw init u (without pos xs) h.valid.few
          (omega (arith, h.valid.fits, sh.same_size))
          (subst (λ m. IsBacked u.slots m) (omega (arith, sh.same_size)) sh.backed)
          (omega (arith, sh.same_size, h.sized, length-without pos xs (rw h.sized lt))) items)
    where
      whole : LfVector A
      whole = record v { size = v.size - 1 }

      reads_list : (i : ℕ) → i < v.size → get whole i ≡ get_elem? xs i
      reads_list i k = get-slots n raw init v (v.size - 1) i ∙ h.items i k

      items : (i : ℕ) → i < u.size → get u i ≡ get_elem? (without pos xs) i
      items i k =
          sh.reads i (omega (arith, k, sh.same_size))
          ∙ split (le-cases pos i)
          ∙ sym (get_elem?-without pos xs i (rw h.sized lt))
        where
          split :
              (pos ≤ i) ⊎ (i < pos)
              → (if shifted pos (v.size - 1 - pos) i then get whole (i + 1) else get whole i)
                ≡ (if leb pos i then get_elem? xs (i + 1) else get_elem? xs i)
          split (inl from) =
              let t1 : leb pos i ≡ true = ground arith in
              let t2 : shifted pos (v.size - 1 - pos) i ≡ true = ground (arith, sh.same_size, k) in
              rw (t2, t1) (reads_list (i + 1) (omega (arith, sh.same_size, k)))
          split (inr below) =
              let t1 : leb pos i ≡ false = ground arith in
              let t2 : shifted pos (v.size - 1 - pos) i ≡ false = ground arith in
              rw (t2, t1) (reads_list i (omega arith))

  -- On a vector that holds a list in valid slots: `erase` of an element of the vector takes just that
  -- one out, and answers its position. Behind the end it changes nothing and answers the end.
  pub erase-Holds :
      (v : LfVector A) (xs : List A) (pos : ℕ)
      → Holds n v xs
      → ((pos < v.size)
          × (w : LfVector A) × (erase n raw init v pos ≡ some (pos, w))
          × Holds n w (without pos xs))
        ⊎ ((v.size ≤ pos) × (erase n raw init v pos ≡ some (v.size, v)))
  unfolding erase remove_at
  erase-Holds v xs pos h = elim (le-cases v.size pos) [
    | inl out ↦ let t : leb v.size pos ≡ true = ground arith in inr (out, rw t)
    | inr in_range ↦
        let t : leb v.size pos ≡ false = ground arith in
        let (u, e, sh) =
          shift_down-Shifted (v.size - 1 - pos) pos v.size (record v { size = v.size - 1 })
            h.valid.backed (size-lt-mod n v.size h.valid.few h.valid.fits) (omega arith) in
        let (w, f, hw) = removed v u xs pos h sh in_range in
        inl (in_range, trim n w, rw (t, e, f), hw)
  ]
