-- ===== src/Buffer/Contents.antt =====
-- The operations keep the elements of a buffer, and `append` adds to them.
use lunchbox.Prelude.{
  ltb-true, ltb-false, leb-true, ==-false, ℕ, ◌+◌, ◌-◌, ◌/◌, ◌≤◌, ◌<◌, ◌≡◌, refl, sym, ap, ◌∙◌, inl,
  inr, true, false, List, ◌++◌, some, ltb, leb, add_size, size_mod, length, length-append,
  length-take, length-drop, length-replicate, get_elem?, get_elem?-append, get_elem?-take, take,
  drop, replicate, arith, le-cases,
}
use lunchbox.Buffer.{Buffer, realloc, copy_to, resize, reserve, append, append_to}

-- The buffer holds these elements, in memory of the size that it knows.
pub record Holds {ℓ} {A : Type ℓ} (b : Buffer A) (xs : List A) : Type ℓ where
  pub sized : length xs ≡ b.size
  pub fits : b.size ≤ b.max_size
  pub memory : length b.cells ≡ b.max_size
  pub items : (i : ℕ) → i < length xs → get_elem? b.cells i ≡ get_elem? xs i

module _ {ℓ} {A : Type ℓ} (raw : A) where
  length-realloc : (n : ℕ) (cells : List A) → length (realloc raw n cells) ≡ n
  unfolding realloc
  length-realloc n cells = omega (
    arith,
    length-append (take n cells) (replicate (n - length cells) raw),
    length-take n cells,
    length-replicate (n - length cells) raw,
  )

  get_elem?-realloc :
      (n : ℕ) (cells : List A) (i : ℕ)
      → i < n
      → i < length cells
      → get_elem? (realloc raw n cells) i ≡ get_elem? cells i
  unfolding realloc
  get_elem?-realloc n cells i lt there =
      let t : ltb i (length (take n cells)) ≡ true = is_below in
      get_elem?-append (take n cells) (replicate (n - length cells) raw) i
      ∙ rw t (get_elem?-take n i cells lt)
    where
      below : i < length (take n cells)
      below = omega (arith, length-take n cells)

      is_below : ltb i (length (take n cells)) ≡ true
      is_below = ltb-true i (length (take n cells)) below

  -- `reserve` keeps the elements and makes room for as many as asked for.
  pub reserve-Holds :
      (n : ℕ) (b : Buffer A) (xs : List A)
      → Holds b xs
      → Holds (reserve raw n b) xs × (n ≤ (reserve raw n b).max_size)
  unfolding reserve
  reserve-Holds n b xs h = elim (le-cases n b.max_size) [
    | inl le ↦ let t : leb n b.max_size ≡ true = ground arith in rw t (h, le)
    | inr gt ↦
        let t : leb n b.max_size ≡ false = ground arith in
        rw t (
          record {
            sized = h.sized;
            fits = omega (arith, h.fits);
            memory = length-realloc n b.cells;
            items = λ i lt.
                get_elem?-realloc n b.cells i (omega (arith, h.sized, h.fits))
                  (omega (arith, h.sized, h.fits, h.memory))
                ∙ h.items i lt;
          },
          omega arith,
        )
  ]

  -- What a copy into the memory leaves.
  record Copied (at : ℕ) (xs cells new : List A) : Type ℓ where
    pub copied : copy_to raw at xs cells ≡ some new
    pub long : length new ≡ length cells
    pub before : (i : ℕ) → i < at → get_elem? new i ≡ get_elem? cells i
    pub there : (i : ℕ) → at ≤ i → i < at + length xs → get_elem? new i ≡ get_elem? xs (i - at)

  copy_to-Copied :
      (at : ℕ) (xs cells : List A)
      → at + length xs ≤ length cells
      → (new : List A) × Copied at xs cells new
  unfolding copy_to
  copy_to-Copied at xs cells room = (
    take at cells ++ (xs ++ drop (at + length xs) cells),
    record {
      copied = rw (leb-true (at + length xs) (length cells) room) refl;
      long = omega (
        arith,
        front,
        length-append (take at cells) (xs ++ drop (at + length xs) cells),
        length-append xs (drop (at + length xs) cells),
        length-drop (at + length xs) cells,
        room,
      );
      before = λ i lt.
          get_elem?-append (take at cells) (xs ++ drop (at + length xs) cells) i
          ∙ rw (ltb-true i (length (take at cells)) (omega (arith, front)))
              (get_elem?-take at i cells lt);
      there = λ i le lt.
          let here : i - length (take at cells) ≡ i - at = omega (arith, front) in
          get_elem?-append (take at cells) (xs ++ drop (at + length xs) cells) i
          ∙ rw (ltb-false i (length (take at cells)) (omega (arith, front)), here)
              (get_elem?-append xs (drop (at + length xs) cells) (i - at)
                ∙ rw (ltb-true (i - at) (length xs) (omega (arith, le, lt))) refl);
    },
  )
    where
      front : length (take at cells) ≡ at
      front = omega (arith, length-take at cells, room)

  -- What `resize` to a greater size leaves.
  record Resized (n : ℕ) (xs : List A) (c : Buffer A) : Type ℓ where
    pub sized : c.size ≡ n
    pub fits : n ≤ c.max_size
    pub memory : length c.cells ≡ c.max_size
    pub items : (i : ℕ) → i < length xs → get_elem? c.cells i ≡ get_elem? xs i

  resize-Resized :
      (n : ℕ) (b : Buffer A) (xs : List A)
      → Holds b xs
      → length xs ≤ n
      → n + n / 8 < size_mod
      → Resized n xs (resize raw n b)
  unfolding resize
  resize-Resized n b xs h more small = elim (le-cases n b.max_size) [
    | inl le ↦
        rw (leb-true n b.max_size le)
          (record { sized = refl; fits = le; memory = h.memory; items = h.items })
    | inr gt ↦
        let t : leb n b.max_size ≡ false = ground arith in
        let whole : add_size n (n / 8) ≡ n + n / 8 = omega arith in
        rw (t, whole)
          (record {
            sized = refl;
            fits = omega arith;
            memory = length-realloc (n + n / 8) b.cells;
            items = λ i lt.
                get_elem?-realloc (n + n / 8) b.cells i (omega arith)
                  (omega (arith, h.sized, h.fits, h.memory))
                ∙ h.items i lt;
          })
  ]

  append_lem :
      (ys : List A) (b : Buffer A) (n : ℕ) (new : List A)
      → 0 < length ys
      → add_size b.size (length ys) ≡ n
      → copy_to raw b.size ys (resize raw n b).cells ≡ some new
      → append raw ys b ≡ some (record (resize raw n b) { cells = new })
  unfolding append append_to
  append_lem ys b n new more e copied =
      let guard : append raw ys b
          ≡ append_to raw ys b.size (resize raw (add_size b.size (length ys)) b) =
        rw (==-false (length ys) 0 (λ e. omega (arith, e, more))) refl in
      let done : append_to raw ys b.size (resize raw n b)
          ≡ some (record (resize raw n b) { cells = new }) =
        rw (append_to, copied) refl in
      guard ∙ ap (λ k. append_to raw ys b.size (resize raw k b)) e ∙ done

  -- The elements of two lists, from those of each.
  both_items :
      (new xs ys : List A)
      → ((i : ℕ) → i < length xs → get_elem? new i ≡ get_elem? xs i)
      → ((i : ℕ)
          → length xs ≤ i
          → i < length xs + length ys
          → get_elem? new i ≡ get_elem? ys (i - length xs))
      → (i : ℕ) → i < length (xs ++ ys)
      → get_elem? new i ≡ get_elem? (xs ++ ys) i
  both_items new xs ys f g i lt = elim (le-cases (length xs) i) [
    | inr low ↦ f i low ∙ sym (get_elem?-append xs ys i ∙ rw (ltb-true i (length xs) low) refl)
    | inl high ↦
        g i high (omega (arith, lt, length-append xs ys))
        ∙ sym (get_elem?-append xs ys i ∙ rw (ltb-false i (length xs) high) refl)
  ]

  -- `append` of at least one element to a buffer that holds a list, whose new size and its reserve of an eighth are
  -- below 2 ^ 64, never writes out of its memory and adds the elements behind those that it holds.
  pub append-Holds :
      (ys : List A) (b : Buffer A) (xs : List A)
      → Holds b xs
      → 0 < length ys
      → length xs + length ys + (length xs + length ys) / 8 < size_mod
      → (c : Buffer A) × (append raw ys b ≡ some c) × Holds c (xs ++ ys)
  append-Holds ys b xs h more small =
      let n = length xs + length ys in
      let z = resize-Resized n b xs h (omega arith) small in
      let (new, c) =
        copy_to-Copied b.size ys (resize raw n b).cells
          (omega (arith, z.memory, z.fits, h.sized)) in
      let whole : add_size b.size (length ys) ≡ n = omega (arith, h.sized, small) in
      (
        record (resize raw n b) { cells = new },
        append_lem ys b n new more whole c.copied,
        record {
          sized = length-append xs ys ∙ sym z.sized;
          fits = omega (arith, z.sized, z.fits);
          memory = c.long ∙ z.memory;
          items =
              both_items new xs ys (λ i lt. c.before i (omega (arith, lt, h.sized)) ∙ z.items i lt)
                (λ i le lt.
                  c.there i (omega (arith, le, h.sized)) (omega (arith, lt, h.sized))
                  ∙ ap (λ k. get_elem? ys (i - k)) (sym h.sized));
        },
      )
