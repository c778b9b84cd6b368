-- ===== src/Log/Texts.antt =====
-- Flushing loses, repeats and mixes up nothing of what the threads write.
use lunchbox.Prelude.{
  ℕ, ◌-◌, ◌≡◌, ◌≢◌, refl, sym, ap, ap₂, ◌∙◌, subst, inl, inr, Bool, true, false, List, [], ◌∷◌,
  ◌++◌, Option, none, some, ◌==◌, ltb, bind, bind-eq_some, if◌then◌else◌, length, take, drop,
  get_elem?, set, append-nil, append_assoc, some-eq, Bool-cases, ==-refl, ==-false, ==-true,
  get_elem?-set, get_elem?-lt, arith,
}
use lunchbox.Log.{
  ℤ, next, previous, is_zero, Text, Format, LogBuffer, indentation, Call, Output, line_start,
  overflow, sync, disable_flush, enable_flush, set_thread_name, set_log_info, call, keeping, System,
  step, steps,
}

-- What the lines of a log look like, apart from when they are flushed.
pub record Layout : Type 0 where
  pub thread : Text
  pub file : Text
  pub indent : ℤ
  pub no_header : ℤ
  pub new_line : Bool

abbrev pub layout_of : LogBuffer → Layout
layout_of b = record {
  thread = b.thread;
  file = b.file;
  indent = b.indent;
  no_header = b.no_header;
  new_line = b.new_line;
}

-- The texts in the stream that one thread has flushed, in a row.
abbrev pub texts : ℕ → List (ℕ × Text) → Text
texts i [] = []
texts i (c ∷ cs) = if c.0 == i then c.1 ++ texts i cs else texts i cs

pub sync-flushes :
    (i : ℕ) (o : Output)
    → (o.log.blocked == 0) ≡ true
    → sync i o ≡ record {
      log = record o.log { new_line = true; buffer = [] };
      stream = o.stream ++ (i, o.log.buffer) ∷ [];
    }
unfolding sync
sync-flushes i o t = rw (sync, t) refl

pub sync-keeps :
    (i : ℕ) (o : Output)
    → (o.log.blocked == 0) ≡ false
    → sync i o ≡ record o { log = record o.log { new_line = true } }
unfolding sync
sync-keeps i o t = rw (sync, t) refl

passed : (t : Bool) (x b : LogBuffer) → (if t then some x else none) ≡ some b → x ≡ b
passed true x b e = some-eq x b e
passed false x b e = cc

not_caught : (t : Bool) (x b : LogBuffer) → (if t then none else some x) ≡ some b → x ≡ b
not_caught true x b e = cc
not_caught false x b e = some-eq x b e

-- The calls of one thread among those of all.
abbrev pub calls_of : ℕ → List (ℕ × Call) → List Call
calls_of i [] = []
calls_of i (e ∷ es) = if e.0 == i then e.1 ∷ calls_of i es else calls_of i es

module _ (f : Format) where
  -- A line starts with a header, unless there are calls of `disableHeader` in force, and the indentation.
  abbrev pub start_text : Bool → ℕ → Layout → Text
  start_text detailed time l =
      if l.new_line
      then (if is_zero l.no_header then f.header detailed l.thread l.file time else [])
        ++ indentation l.indent
      else []

  -- What a call adds to the text of its thread, and the layout behind it.
  abbrev pub written : Call → Layout → Text
  written (Call.overflows detailed time none) l = []
  written (Call.overflows detailed time (some c)) l = start_text detailed time l ++ c ∷ []
  written _ l = []

  abbrev pub layout_after : Call → Layout → Layout
  layout_after (Call.overflows detailed time none) l = l
  layout_after (Call.overflows detailed time (some c)) l = record l { new_line = false }
  layout_after Call.syncs l = record l { new_line = true }
  layout_after Call.indents l = record l { indent = next l.indent }
  layout_after Call.exdents l = record l { indent = previous l.indent }
  layout_after Call.disables_flush l = l
  layout_after Call.enables_flush l = l
  layout_after Call.disables_header l = record l { no_header = next l.no_header }
  layout_after Call.enables_header l = record l { no_header = previous l.no_header }
  layout_after (Call.sets_thread_name name) l = record l { thread = take 8 name }
  layout_after (Call.sets_log_info file line) l = record l {
    file = f.place (if ltb 29 (length file) then drop (length file - 29) file else file) line;
  }

  abbrev pub text_of : List Call → Layout → Text
  text_of [] l = []
  text_of (c ∷ cs) l = written c l ++ text_of cs (layout_after c l)

  texts-append : (i : ℕ) (cs ds : List (ℕ × Text)) → texts i (cs ++ ds) ≡ texts i cs ++ texts i ds
  texts-append i [] ds = refl
  texts-append i (c ∷ cs) ds = elim (Bool-cases (c.0 == i)) [
    | inl t ↦ rw t (
        ap (λ u. c.1 ++ u) (texts-append i cs ds)
        ∙ sym (append_assoc c.1 (texts i cs) (texts i ds)))
    | inr t ↦ rw t (texts-append i cs ds)
  ]

  -- What a call of thread `i` does to its texts, to its layout and to the texts of the others.
  pub record Adds (i : ℕ) (c : Call) (o o' : Output) : Type 0 where
    pub own :
        texts i o'.stream ++ o'.log.buffer
        ≡ (texts i o.stream ++ o.log.buffer) ++ written c (layout_of o.log)
    pub layout : layout_of o'.log ≡ layout_after c (layout_of o.log)
    pub others : (j : ℕ) → i ≢ j → texts j o'.stream ≡ texts j o.stream

  -- A call that writes nothing and flushes nothing.
  quiet :
      (i : ℕ) (c : Call) (o o' : Output)
      → o'.stream ≡ o.stream
      → o'.log.buffer ≡ o.log.buffer
      → written c (layout_of o.log) ≡ []
      → layout_of o'.log ≡ layout_after c (layout_of o.log)
      → Adds i c o o'
  quiet i c o o' s b w l = record {
    own =
        ap₂ (λ u v. texts i u ++ v) s b
        ∙ sym (append-nil (texts i o.stream ++ o.log.buffer))
        ∙ ap (λ u. (texts i o.stream ++ o.log.buffer) ++ u) (sym w);
    layout = l;
    others = λ j ne. ap (texts j) s;
  }

  flushed :
      (i : ℕ) (o : Output)
      → Adds i Call.syncs o (record {
        log = record o.log { new_line = true; buffer = [] };
        stream = o.stream ++ (i, o.log.buffer) ∷ [];
      })
  flushed i o = record {
    own =
        append-nil (texts i (o.stream ++ (i, o.log.buffer) ∷ []))
        ∙ texts-append i o.stream ((i, o.log.buffer) ∷ [])
        ∙ ap (λ u. texts i o.stream ++ u) (rw (==-refl i) (append-nil o.log.buffer))
        ∙ sym (append-nil (texts i o.stream ++ o.log.buffer));
    layout = refl;
    others = λ j ne.
        texts-append j o.stream ((i, o.log.buffer) ∷ [])
        ∙ ap (λ u. texts j o.stream ++ u) (rw (==-false i j ne) refl)
        ∙ append-nil (texts j o.stream);
  }

  sync-Adds : (i : ℕ) (o : Output) → Adds i Call.syncs o (sync i o)
  sync-Adds i o = elim (Bool-cases (o.log.blocked == 0)) [
    | inl t ↦ subst (Adds i Call.syncs o) (sym (sync-flushes i o t)) (flushed i o)
    | inr t ↦
        subst (Adds i Call.syncs o) (sym (sync-keeps i o t))
          (quiet i Call.syncs o _ refl refl refl refl)
  ]

  -- The calls that may fail an assertion.
  guarded :
      (i : ℕ) (c : Call) (o o' : Output) (m : Option LogBuffer)
      → ((b : LogBuffer) → m ≡ some b → Adds i c o (keeping o.stream b))
      → bind m (λ b. some (keeping o.stream b)) ≡ some o'
      → Adds i c o o'
  guarded i c o o' none h e = cc
  guarded i c o o' (some b) h e = subst (Adds i c o) (some-eq _ o' e) (h b refl)

  disable_flush-Adds :
      (i : ℕ) (o : Output) (b : LogBuffer)
      → disable_flush o.log ≡ some b
      → Adds i Call.disables_flush o (keeping o.stream b)
  unfolding disable_flush
  disable_flush-Adds i o b e =
      subst (λ k. Adds i Call.disables_flush o (keeping o.stream k)) (passed _ _ b e)
        (quiet i Call.disables_flush o _ refl refl refl refl)

  enable_flush-Adds :
      (i : ℕ) (o : Output) (b : LogBuffer)
      → enable_flush o.log ≡ some b
      → Adds i Call.enables_flush o (keeping o.stream b)
  unfolding enable_flush
  enable_flush-Adds i o b e =
      subst (λ k. Adds i Call.enables_flush o (keeping o.stream k)) (not_caught _ _ b e)
        (quiet i Call.enables_flush o _ refl refl refl refl)

  set_thread_name-Adds :
      (i : ℕ) (name : Text) (o : Output) (b : LogBuffer)
      → set_thread_name name o.log ≡ some b
      → Adds i (Call.sets_thread_name name) o (keeping o.stream b)
  unfolding set_thread_name
  set_thread_name-Adds i name o b e =
      subst (λ k. Adds i (Call.sets_thread_name name) o (keeping o.stream k)) (not_caught _ _ b e)
        (quiet i (Call.sets_thread_name name) o _ refl refl refl refl)

  overflow-Adds :
      (i : ℕ) (detailed : Bool) (time : ℕ) (c : Option ℕ) (o : Output)
      → Adds i
          (Call.overflows detailed time c)
          o
          (keeping o.stream (overflow f detailed time c o.log))
  unfolding overflow line_start
  overflow-Adds i detailed time none o = quiet i _ o _ refl refl refl refl
  overflow-Adds i detailed time (some c) o = record {
    own =
        sym (
          append_assoc (texts i o.stream) o.log.buffer
            (line_start f detailed time o.log ++ c ∷ []));
    layout = refl;
    others = λ j ne. refl;
  }

  call-Adds : (i : ℕ) (c : Call) (o o' : Output) → call f i c o ≡ some o' → Adds i c o o'
  unfolding call set_log_info
  call-Adds i (Call.overflows detailed time c) o o' e =
      subst (Adds i _ o) (some-eq _ o' e) (overflow-Adds i detailed time c o)
  call-Adds i Call.syncs o o' e = subst (Adds i _ o) (some-eq _ o' e) (sync-Adds i o)
  call-Adds i Call.indents o o' e =
      subst (Adds i _ o) (some-eq _ o' e) (quiet i _ o _ refl refl refl refl)
  call-Adds i Call.exdents o o' e =
      subst (Adds i _ o) (some-eq _ o' e) (quiet i _ o _ refl refl refl refl)
  call-Adds i Call.disables_flush o o' e =
      guarded i _ o o' (disable_flush o.log) (disable_flush-Adds i o) e
  call-Adds i Call.enables_flush o o' e =
      guarded i _ o o' (enable_flush o.log) (enable_flush-Adds i o) e
  call-Adds i Call.disables_header o o' e =
      subst (Adds i _ o) (some-eq _ o' e) (quiet i _ o _ refl refl refl refl)
  call-Adds i Call.enables_header o o' e =
      subst (Adds i _ o) (some-eq _ o' e) (quiet i _ o _ refl refl refl refl)
  call-Adds i (Call.sets_thread_name name) o o' e =
      guarded i _ o o' (set_thread_name name o.log) (set_thread_name-Adds i name o) e
  call-Adds i (Call.sets_log_info file line) o o' e =
      subst (Adds i _ o) (some-eq _ o' e) (quiet i _ o _ refl refl refl refl)

  -- A thread, its log, and what it has written so far.
  pub record Stands (s : System) (i : ℕ) (l : Layout) (u : Text) : Type 0 where
    pub log : LogBuffer
    pub at : get_elem? s.logs i ≡ some log
    pub layout : layout_of log ≡ l
    pub text : texts i s.shared ++ log.buffer ≡ u

  step-own :
      (i : ℕ) (c : Call) (s t : System) (l : Layout) (u : Text)
      → step f i c s ≡ some t
      → Stands s i l u
      → Stands t i (layout_after c l) (u ++ written c l)
  unfolding step
  step-own i c s t l u e st =
      let (b, at_b, e1) = bind-eq_some (get_elem? s.logs i) _ t e in
      let (o, called, e2) = bind-eq_some (call f i c (keeping s.shared b)) _ t e1 in
      let adds : Adds i c (keeping s.shared b) o = call-Adds i c (keeping s.shared b) o called in
      let same : b ≡ st.log = some-eq b st.log (sym at_b ∙ st.at) in
      let l_same : layout_of b ≡ l = ap layout_of same ∙ st.layout in
      let now : System = record { logs = set s.logs i o.log; shared = o.stream } in
      subst (λ k. Stands k i (layout_after c l) (u ++ written c l)) (some-eq now t e2)
        (record {
          log = o.log;
          at = get_elem?-set s.logs i i o.log (get_elem?-lt s.logs i b at_b) ∙ rw (==-refl i) refl;
          layout = adds.layout ∙ ap (layout_after c) l_same;
          text =
              adds.own
              ∙ ap₂ ◌++◌ (ap (λ k. texts i s.shared ++ k.buffer) same ∙ st.text)
                  (ap (written c) l_same);
        })

  step-other :
      (j : ℕ) (c : Call) (i : ℕ) (s t : System) (l : Layout) (u : Text)
      → j ≢ i
      → step f j c s ≡ some t
      → Stands s i l u
      → Stands t i l u
  unfolding step
  step-other j c i s t l u ne e st =
      let (b, at_b, e1) = bind-eq_some (get_elem? s.logs j) _ t e in
      let (o, called, e2) = bind-eq_some (call f j c (keeping s.shared b)) _ t e1 in
      let adds : Adds j c (keeping s.shared b) o = call-Adds j c (keeping s.shared b) o called in
      let now : System = record { logs = set s.logs j o.log; shared = o.stream } in
      subst (λ k. Stands k i l u) (some-eq now t e2)
        (record {
          log = st.log;
          at =
              get_elem?-set s.logs j i o.log (get_elem?-lt s.logs j b at_b)
              ∙ rw (==-false j i ne) st.at;
          layout = st.layout;
          text = ap (λ k. k ++ st.log.buffer) (adds.others i ne) ∙ st.text;
        })

  -- Whatever calls the threads make, in any order: what a thread has flushed into the shared stream and
  -- then what its buffer still holds is what was there before and then the text of its own calls, with a
  -- header and the indentation at each start of a line. Blocking and unblocking of flushes neither loses
  -- nor repeats nor moves any of it.
  pub steps_text :
      (i : ℕ) (es : List (ℕ × Call)) (s t : System) (l : Layout) (u : Text)
      → steps f es s ≡ some t
      → Stands s i l u
      → (b : LogBuffer) × (get_elem? t.logs i ≡ some b)
        × (texts i t.shared ++ b.buffer ≡ u ++ text_of (calls_of i es) l)
  unfolding steps
  steps_text i [] s t l u e st =
      let same : s ≡ t = some-eq s t e in
      (
        st.log,
        ap (λ k. get_elem? k.logs i) (sym same) ∙ st.at,
        ap (λ k. texts i k.shared ++ st.log.buffer) (sym same) ∙ st.text ∙ sym (append-nil u),
      )
  steps_text i (x ∷ es) s t l u e st =
      let (r, first, rest) = bind-eq_some (step f x.0 x.1 s) (steps f es) t e in
      elim (Bool-cases (x.0 == i)) [
        | inl own ↦
            let at : x.0 ≡ i = ==-true x.0 i own in
            let here = step-own i x.1 s r l u (ap (λ k. step f k x.1 s) (sym at) ∙ first) st in
            let (b, at_b, text) =
              steps_text i es r t (layout_after x.1 l) (u ++ written x.1 l) rest here in
            (
              b,
              at_b,
              text
                  ∙ rw own (
                      append_assoc u (written x.1 l)
                        (text_of (calls_of i es) (layout_after x.1 l))),
            )
        | inr other ↦
            let ne : x.0 ≢ i = (λ k. ground (arith, k, other)) in
            let (b, at_b, text) =
              steps_text i es r t l u rest (step-other x.0 x.1 i s r l u ne first st) in
            (b, at_b, text ∙ rw other refl)
      ]
