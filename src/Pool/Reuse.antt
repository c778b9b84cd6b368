-- ===== src/Pool/Reuse.antt =====
-- Every object is in one place: with one caller, in the cache, or deleted.
use lunchbox.Prelude.{
  ℕ, ◌+◌, ◌≡◌, refl, sym, ap, ◌∙◌, subst, inl, inr, Bool, true, false, List, [], ◌∷◌, some, ◌==◌,
  ==-true, ==-refl, arith, ltb, ltb-false, ◌≤◌, bind, Bool-cases, bind-eq_some, some-eq,
  if◌then◌else◌,
}
use lunchbox.Pool.{
  alloc, alloc_from, release, flush, flush_all, Client, Call, allocs, releases, flushes, take_out,
  call, calls,
}

-- How often an address stands in a list.
abbrev pub count : ℕ → List ℕ → ℕ
count item [] = 0
count item (x ∷ xs) = (if x == item then 1 else 0) + count item xs

-- The places of an address, which are one for an object that was made.
abbrev pub places : Client → ℕ → ℕ
places c item = count item c.used + (count item c.pool.cache + count item c.pool.deleted)

pub record IsValid (c : Client) : Type 0 where
  pub placed : (item : ℕ) → places c item ≡ (if ltb item c.pool.created then 1 else 0)

take_out-count :
    (item x : ℕ) (xs ys : List ℕ)
    → take_out item xs ≡ some ys
    → count x xs ≡ (if item == x then 1 else 0) + count x ys
take_out-count item x [] ys e = absurd cc
take_out-count item x (y ∷ xs) ys e = elim (Bool-cases (y == item)) [
  | inl t ↦
      let taken : take_out item (y ∷ xs) ≡ some xs = rw t refl in
      let same = some-eq xs ys (sym taken ∙ e) in rw (==-true y item t, same) refl
  | inr t ↦
      let later : take_out item (y ∷ xs) ≡ bind (take_out item xs) (λ zs. some (y ∷ zs)) =
        rw t refl in
      let (zs, at, eq) = bind-eq_some (take_out item xs) (λ zs. some (y ∷ zs)) ys (sym later ∙ e) in
      let same = some-eq (y ∷ zs) ys eq in
      subst (λ l. count x (y ∷ xs) ≡ (if item == x then 1 else 0) + count x l) same
        (omega (arith, take_out-count item x xs zs at))
]

flush_all-count : (x : ℕ) (xs ys : List ℕ) → count x (flush_all xs ys) ≡ count x xs + count x ys
flush_all-count x [] ys = omega arith
flush_all-count x (y ∷ xs) ys = omega (arith, flush_all-count x xs (y ∷ ys))

fresh_place :
    (x made used rest : ℕ)
    → used + rest ≡ (if ltb x made then 1 else 0)
    → ((if made == x then 1 else 0) + used) + rest ≡ (if ltb x (made + 1) then 1 else 0)
fresh_place x made used rest e = ground arith

alloc-IsValid :
    (c : Client) (cache : List ℕ)
    → c.pool.cache ≡ cache
    → IsValid c
    → IsValid
        (record { pool = (alloc_from c.pool cache).0; used = (alloc_from c.pool cache).1 ∷ c.used })
alloc-IsValid c [] e v = record {
  placed = λ x.
      fresh_place x c.pool.created (count x c.used) (count x c.pool.cache + count x c.pool.deleted)
        (v.placed x);
}
alloc-IsValid c (item ∷ rest) e v = record {
  placed = λ x. let old = v.placed x in let same = ap (count x) e in omega (arith, old, same);
}

call-IsValid : (x : Call) (c d : Client) → IsValid c → call x c ≡ some d → IsValid d
unfolding call alloc release flush
call-IsValid allocs c d v e =
    subst IsValid
      (some-eq (record { pool = (alloc c.pool).0; used = (alloc c.pool).1 ∷ c.used }) d e)
      (alloc-IsValid c c.pool.cache refl v)
call-IsValid (releases item) c d v e =
    let (rest, at, eq) =
      bind-eq_some (take_out item c.used)
        (λ l. some (record { pool = release item c.pool; used = l })) d e in
    subst IsValid (some-eq (record { pool = release item c.pool; used = rest }) d eq)
      (record { placed = λ x. omega (arith, v.placed x, take_out-count item x c.used rest at) })
call-IsValid flushes c d v e =
    subst IsValid (some-eq (record c { pool = flush c.pool }) d e) (record {
      placed = λ x. omega (arith, v.placed x, flush_all-count x c.pool.cache c.pool.deleted);
    })

calls-IsValid : (xs : List Call) (c d : Client) → IsValid c → calls xs c ≡ some d → IsValid d
unfolding calls
calls-IsValid [] c d v e = subst IsValid (some-eq c d e) v
calls-IsValid (x ∷ xs) c d v e =
    let (b, now, rest) = bind-eq_some (call x c) (calls xs) d e in
    calls-IsValid xs b d (call-IsValid x c b v now) rest

abbrev pub no_calls : Client
no_calls = record { pool = record { cache = []; created = 0; deleted = [] }; used = [] }

at_most_one : (b : Bool) → (if b then 1 else 0) ≤ 1
at_most_one true = omega arith
at_most_one false = omega arith

alone :
    (c : Client) (cache : List ℕ)
    → c.pool.cache ≡ cache
    → IsValid c
    → (count (alloc_from c.pool cache).1 c.used ≡ 0)
      × (count (alloc_from c.pool cache).1 c.pool.deleted ≡ 0)
alone c [] e v =
    let free = ltb-false c.pool.created c.pool.created (omega arith) in
    let nowhere : places c c.pool.created ≡ 0 = v.placed c.pool.created ∙ rw free refl in
    (omega arith, omega arith)
alone c (item ∷ rest) e v =
    let here : count item c.pool.cache ≡ 1 + count item rest =
      ap (count item) e ∙ rw (==-refl item) refl in
    let once = at_most_one (ltb item c.pool.created) in
    let placed = v.placed item in (omega arith, omega arith)

-- Whatever the callers allocate, release and flush from a new pool on, where each releases only what
-- it uses: an object that was made is in use once, or once in the cache, or deleted once. So the
-- next `alloc` gives an object that nobody uses and that was not deleted.
pub calls-alone :
    (xs : List Call) (c : Client)
    → calls xs no_calls ≡ some c
    → ((item : ℕ) → places c item ≡ (if ltb item c.pool.created then 1 else 0))
      × (count (alloc c.pool).1 c.used ≡ 0)
      × (count (alloc c.pool).1 c.pool.deleted ≡ 0)
unfolding alloc
calls-alone xs c e =
    let v = calls-IsValid xs no_calls c (record { placed = λ x. ground arith }) e in
    let (unused, there) = alone c c.pool.cache refl v in (v.placed, unused, there)
