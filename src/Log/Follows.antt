-- ===== src/Log/Follows.antt =====
-- Each event of a flush under the lock, against a system whose flushes are one step each.
use lunchbox.Prelude.{
  ℕ, ◌≡◌, ◌≢◌, ◌⊎◌, refl, sym, ap, ◌∙◌, subst, inl, inr, Bool, true, false, not, ◌&&◌, List, [],
  ◌∷◌, ◌++◌, Option, none, some, ◌==◌, ==-false, bind, bind-eq_some, get_elem?, get_elem?-set,
  get_elem?-lt, set, append-nil, append_assoc, some-eq,
}
use lunchbox.Log.{Text, Format, LogBuffer, Call, Output, call, keeping, step, steps}
use lunchbox.Log.Flush.{
  outside, waiting, writing, is_outside, Program, at_phase, flushes, keep_log, enter, take_lock,
  put, release, make_call,
}
use lunchbox.Log.Texts.{sync-flushes}
use lunchbox.Log.Whole.{
  Holds, unlocked, locked, Sound, onto, spread, bytes_of, is_writing, bytes_of-append, spread_last,
  both-true, checked, quiet_call,
}
use lunchbox.Log.Holders.{
  Holder, lock_cases, put_cases, release_cases, outside-true, at_phase_own, at_phase_other,
  quiet_phases, other_phases, holder, same_or_not, flushed_log,
}

pub outside-waiting : outside ≢ waiting
outside-waiting e = cc

writing-waiting : (t : Text) → writing t ≢ waiting
writing-waiting t e = cc

writing-outside : (t : Text) → writing t ≢ outside
writing-outside t e = cc

-- Another place of the logs.
other_log :
    (p : Program) (i j : ℕ) (l b : LogBuffer)
    → get_elem? p.logs i ≡ some l
    → i ≢ j
    → (n : LogBuffer) → get_elem? (set p.logs i n) j ≡ get_elem? p.logs j
other_log p i j l b at ne n =
    get_elem?-set p.logs i j n (get_elem?-lt p.logs i l at) ∙ rw (==-false i j ne) refl

-- A thread that is outside changes its log.
change_log :
    (p : Program) (bs : List (ℕ × Text)) (i : ℕ) (l n : LogBuffer) (k : Option ℕ)
    → get_elem? p.logs i ≡ some l
    → p.phases i ≡ outside
    → Holds p bs k
    → Holds (record p { logs = set p.logs i n }) bs k
change_log p bs i l n _ at out (unlocked s quiet) = unlocked s quiet
change_log p bs i l n _ at out (locked j b done rest at_j may parts ph s others) =
    let ne : i ≢ j = λ e. writing-outside rest (sym ph ∙ ap p.phases (sym e) ∙ out) in
    locked j b done rest (other_log p i j l b at ne n ∙ at_j) may parts ph s others

call-Sound :
    (p : Program) (bs : List (ℕ × Text)) (i : ℕ) (l n : LogBuffer)
    → get_elem? p.logs i ≡ some l
    → p.phases i ≡ outside
    → Sound p bs
    → Sound (record p { logs = set p.logs i n }) bs
call-Sound p bs i l n at out v = record {
  holds = change_log p bs i l n p.lock at out v.holds;
  waits = λ j b w at_j.
      let ne : i ≢ j = λ e. outside-waiting (sym out ∙ ap p.phases e ∙ w) in
      v.waits j b w (sym (other_log p i j l b at ne n) ∙ at_j);
}

-- What an event of thread i does to the system of whole flushes.
abbrev pub Follows : Format → List (ℕ × Call) → Program → List (ℕ × Text) → Program → Type 0
Follows f es p bs q =
    (bs' : List (ℕ × Text)) × (steps f es (onto p bs) ≡ some (onto q bs')) × Sound q bs'

one_step :
    (f : Format) (i : ℕ) (c : Call) (p : Program) (bs : List (ℕ × Text)) (l : LogBuffer)
    (o : Output)
    → get_elem? p.logs i ≡ some l
    → call f i c (keeping bs l) ≡ some o
    → steps f ((i, c) ∷ []) (onto p bs)
      ≡ some (record { logs = set p.logs i o.log; shared = o.stream })
unfolding steps step
one_step f i c p bs l o at called =
    ap
      (λ k.
        bind
          (bind k (λ b.
            bind (call f i c (keeping bs b))
              (λ o'. some (record { logs = set p.logs i o'.log; shared = o'.stream }))))
          (steps f []))
      at
    ∙ ap
        (λ k.
          bind (bind k (λ o'. some (record { logs = set p.logs i o'.log; shared = o'.stream })))
            (steps f []))
        called

not-true : (b : Bool) → not b ≡ true → b ≡ false
not-true true e = absurd cc
not-true false e = refl

pub calls_follow :
    (f : Format) (i : ℕ) (c : Call) (p q : Program) (bs : List (ℕ × Text)) (l : LogBuffer)
    → get_elem? p.logs i ≡ some l
    → make_call f i c p l ≡ some q
    → Sound p bs
    → Follows f ((i, c) ∷ []) p bs q
calls_follow f i c p q bs l at made v =
    let (tests, ran) = checked (is_outside (p.phases i) && not (flushes c l)) _ q made in
    let (out, no_flush) = both-true (is_outside (p.phases i)) (not (flushes c l)) tests in
    let (o, called, kept) = bind-eq_some (call f i c (keeping [] l)) (keep_log i p) q ran in
    subst (λ r. Follows f ((i, c) ∷ []) p bs r)
      (some-eq (record p { logs = set p.logs i o.log }) q kept)
      (
        bs,
        one_step f i c p bs l (keeping bs o.log) at
            (quiet_call f i c l bs o (not-true (flushes c l) no_flush) called),
        call-Sound p bs i l o.log at (outside-true (p.phases i) out) v,
      )

-- A thread that is outside goes to the lock.
enter_phase :
    (p : Program) (bs : List (ℕ × Text)) (i : ℕ) (k : Option ℕ)
    → p.phases i ≡ outside
    → Holds p bs k
    → Holds (record p { phases = at_phase i waiting p }) bs k
enter_phase p bs i _ out (unlocked s quiet) =
    unlocked s (quiet_phases i waiting p refl (λ j ne. quiet j))
enter_phase p bs i _ out (locked j b done rest at may parts ph s others) =
    let ne : i ≢ j = λ e. writing-outside rest (sym ph ∙ ap p.phases (sym e) ∙ out) in
    locked j b done rest at may parts (at_phase_other i j waiting p ne ∙ ph) s
      (λ k ne_k. still k ne_k (same_or_not i k))
  where
    still : (k : ℕ) → j ≢ k → (i ≡ k) ⊎ (i ≢ k) → is_writing (at_phase i waiting p k) ≡ false
    still k ne_k (inl e) =
        subst (λ n. is_writing (at_phase i waiting p n) ≡ false) e
          (ap is_writing (at_phase_own i waiting p))
    still k ne_k (inr ne) = ap is_writing (at_phase_other i k waiting p ne) ∙ others k ne_k

pub enters_follow :
    (f : Format) (i : ℕ) (p q : Program) (bs : List (ℕ × Text)) (l : LogBuffer)
    → get_elem? p.logs i ≡ some l
    → enter i p l ≡ some q
    → Sound p bs
    → Follows f [] p bs q
unfolding steps
enters_follow f i p q bs l at entered v =
    let (tests, same) = checked (is_outside (p.phases i) && l.blocked == 0) _ q entered in
    let (out, may) = both-true (is_outside (p.phases i)) (l.blocked == 0) tests in
    subst (λ r. Follows f [] p bs r) (some-eq (record p { phases = at_phase i waiting p }) q same)
      (
        bs,
        refl,
        record {
          holds = enter_phase p bs i p.lock (outside-true (p.phases i) out) v.holds;
          waits = λ j b w at_j. wait_of j b w at_j may (same_or_not i j);
        },
      )
  where
    wait_of :
        (j : ℕ) (b : LogBuffer)
        → at_phase i waiting p j ≡ waiting
        → get_elem? p.logs j ≡ some b
        → (l.blocked == 0) ≡ true
        → (i ≡ j) ⊎ (i ≢ j)
        → (b.blocked == 0) ≡ true
    wait_of j b w at_j may (inl e) =
        ap (λ (k : LogBuffer). k.blocked == 0)
          (some-eq b l (sym at_j ∙ ap (get_elem? p.logs) (sym e) ∙ at))
        ∙ may
    wait_of j b w at_j may (inr ne) = v.waits j b (sym (at_phase_other i j waiting p ne) ∙ w) at_j

none_writes :
    (p : Program) (bs : List (ℕ × Text)) (k : Option ℕ)
    → k ≡ none
    → Holds p bs k
    → (p.stream ≡ spread bs) × ((j : ℕ) → is_writing (p.phases j) ≡ false)
none_writes p bs _ e (unlocked s quiet) = (s, quiet)
none_writes p bs _ e (locked i b done rest at may parts ph s others) = absurd cc

pub locks_follow :
    (f : Format) (i : ℕ) (p q : Program) (bs : List (ℕ × Text)) (l : LogBuffer)
    → get_elem? p.logs i ≡ some l
    → take_lock i p l (p.phases i) p.lock ≡ some q
    → Sound p bs
    → Follows f [] p bs q
unfolding steps
locks_follow f i p q bs l at taken v =
    let (w, free, same) = lock_cases i p q l (p.phases i) p.lock taken in
    let (s, quiet) = none_writes p bs p.lock free v.holds in
    subst (λ r. Follows f [] p bs r) same
      (
        bs,
        refl,
        record {
          holds =
              locked i l [] l.buffer at (v.waits i l w at) refl
                (at_phase_own i (writing l.buffer) p) (s ∙ sym (append-nil (spread bs)))
                (λ j ne. ap is_writing (at_phase_other i j (writing l.buffer) p ne) ∙ quiet j);
          waits = λ j b w_j at_j.
              let (ne, old) =
                other_phases i j (writing l.buffer) waiting p w_j (writing-waiting l.buffer) in
              v.waits j b old at_j;
        },
      )

pub puts_follow :
    (f : Format) (i : ℕ) (p q : Program) (bs : List (ℕ × Text))
    → put i p (p.phases i) ≡ some q
    → Sound p bs
    → Follows f [] p bs q
unfolding steps
puts_follow f i p q bs written v =
    let (c, rest, ph, same) = put_cases i p q (p.phases i) written in
    let h : Holder p bs i (c ∷ rest) = holder p bs i (c ∷ rest) p.lock refl v.holds ph in
    let now : Program = record p {
      phases = at_phase i (writing rest) p;
      stream = p.stream ++ (i, c) ∷ [];
    } in
    let held : Holds now bs (some i) =
      locked i h.log (h.done ++ c ∷ []) rest h.at h.may
        (h.parts ∙ sym (append_assoc h.done (c ∷ []) rest)) (at_phase_own i (writing rest) p)
        (ap (λ l. l ++ (i, c) ∷ []) h.stream
          ∙ append_assoc (spread bs) (bytes_of i h.done) ((i, c) ∷ [])
          ∙ ap (λ l. spread bs ++ l) (sym (bytes_of-append i h.done (c ∷ []))))
        (λ j ne. ap is_writing (at_phase_other i j (writing rest) p ne) ∙ h.others j ne) in
    subst (λ r. Follows f [] p bs r) same
      (
        bs,
        refl,
        record {
          holds = subst (Holds now bs) (sym h.held) held;
          waits = λ j b w_j at_j.
              let (ne, old) =
                other_phases i j (writing rest) waiting p w_j (writing-waiting rest) in
              v.waits j b old at_j;
        },
      )

pub unlocks_follow :
    (f : Format) (i : ℕ) (p q : Program) (bs : List (ℕ × Text)) (l : LogBuffer)
    → get_elem? p.logs i ≡ some l
    → release i p l (p.phases i) ≡ some q
    → Sound p bs
    → Follows f ((i, Call.syncs) ∷ []) p bs q
unfolding call
unlocks_follow f i p q bs l at freed v =
    let (ph, same) = release_cases i p q l (p.phases i) freed in
    let h : Holder p bs i [] = holder p bs i [] p.lock refl v.holds ph in
    let log_same : h.log ≡ l = some-eq h.log l (sym h.at ∙ at) in
    let may : (l.blocked == 0) ≡ true =
      ap (λ (k : LogBuffer). k.blocked == 0) (sym log_same) ∙ h.may in
    let buffer : l.buffer ≡ h.done =
      ap (λ (k : LogBuffer). k.buffer) (sym log_same) ∙ h.parts ∙ append-nil h.done in
    subst (λ r. Follows f ((i, Call.syncs) ∷ []) p bs r) same
      (
        bs ++ (i, l.buffer) ∷ [],
        one_step f i Call.syncs p bs l
            (record { log = flushed_log l; stream = bs ++ (i, l.buffer) ∷ [] }) at
            (ap some (sync-flushes i (keeping bs l) may)),
        record {
          holds =
              unlocked
                (h.stream
                  ∙ ap (λ t. spread bs ++ bytes_of i t) (sym buffer)
                  ∙ sym (spread_last bs i l.buffer))
                (quiet_phases i outside p refl h.others);
          waits = λ j b w_j at_j.
              let (ne, old) = other_phases i j outside waiting p w_j outside-waiting in
              v.waits j b old (sym (other_log p i j l b at ne (flushed_log l)) ∙ at_j);
        },
      )
