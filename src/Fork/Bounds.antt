-- ===== src/Fork/Bounds.antt =====
-- The buffer of `length + 1` bytes is enough for every command.
use lunchbox.Prelude.{
  ℕ, zero, suc, ◌+◌, ◌<◌, ◌≡◌, refl, ap, ◌∙◌, Bool, true, false, List, [], ◌∷◌, ◌++◌, Option, some,
  bind, ◌==◌, ltb-true, if◌then◌else◌, length, set, take, replicate, length-append, length-set,
  length-replicate, arith,
}
use lunchbox.Log.{Text}
use lunchbox.Fork.{
  Reader, c_string, write, advance, keep, push_back, push, read, read_all, push_last, finish,
  build_command_line, get_command_line,
}
use lunchbox.Fork.Texts.{
  Reading, keep_text, push_text, read_text, read_texts, push_last_text, finish_text, new_reading,
  words_of, is_empty,
}

take-set_next :
    (buffer : List ℕ) (p c : ℕ)
    → p < length buffer
    → take (suc p) (set buffer p c) ≡ take p buffer ++ c ∷ []
take-set_next [] p c h = absurd (omega arith)
take-set_next (x ∷ xs) zero c h = refl
take-set_next (x ∷ xs) (suc p) c h = ap (λ l. x ∷ l) (take-set_next xs p c (omega arith))

c_string-set :
    (buffer : List ℕ) (p : ℕ)
    → p < length buffer
    → c_string (set buffer p 0) ≡ c_string (take p buffer)
c_string-set [] p h = absurd (omega arith)
c_string-set (x ∷ xs) zero h = refl
c_string-set (x ∷ xs) (suc p) h = rw (c_string-set xs p (omega arith)) refl

-- The reader with the word of a reading at the front of its buffer.
abbrev onto : List ℕ → Reading → Reader
onto buffer a = record {
  in_ticks = a.in_ticks;
  escaped = a.escaped;
  buffer = buffer;
  buffer_pos = length a.word;
  command_line = a.command_line;
}

-- The word stands in the buffer, and there is room for `left` more bytes and the 0 behind them.
record Fits (left : ℕ) (buffer : List ℕ) (a : Reading) : Type 0 where
  text : take (length a.word) buffer ≡ a.word
  room : length a.word + (if a.escaped then 1 else 0) + left < length buffer

write-onto :
    (c : ℕ) (buffer : List ℕ) (a : Reading)
    → length a.word < length buffer
    → write c (onto buffer a) ≡ some (onto (set buffer (length a.word) c) a)
unfolding write
write-onto c buffer a h = rw (ltb-true (length a.word) (length buffer) h) refl

keep-onto :
    (c : ℕ) (buffer : List ℕ) (a : Reading)
    → length a.word < length buffer
    → keep c (onto buffer a) ≡ some (onto (set buffer (length a.word) c) (keep_text c a))
unfolding keep
keep-onto c buffer a h =
    let longer : length a.word + 1 ≡ length (a.word ++ c ∷ []) =
      omega (arith, length-append a.word (c ∷ [])) in
    ap (λ o. bind o advance) (write-onto c buffer a h)
    ∙ ap
        (λ p.
          some (record (onto (set buffer (length a.word) c) (keep_text c a)) { buffer_pos = p }))
        longer

push-onto :
    (buffer : List ℕ) (a : Reading)
    → length a.word < length buffer
    → take (length a.word) buffer ≡ a.word
    → push (onto buffer a) ≡ some (onto (set buffer (length a.word) 0) (push_text a))
unfolding push
push-onto buffer a h text =
    ap (λ o. bind o push_back) (write-onto 0 buffer a h)
    ∙ ap
        (λ w. some (record (onto (set buffer (length a.word) 0) (push_text a)) {
          command_line = a.command_line ++ (w ∷ []);
        }))
        (c_string-set buffer (length a.word) h ∙ ap c_string text)

kept_text :
    (c : ℕ) (buffer : List ℕ) (word : Text)
    → length word < length buffer
    → take (length word) buffer ≡ word
    → take (length (word ++ c ∷ [])) (set buffer (length word) c) ≡ word ++ c ∷ []
kept_text c buffer word h text =
    let longer : length (word ++ c ∷ []) ≡ suc (length word) =
      omega (arith, length-append word (c ∷ [])) in
    ap (λ n. take n (set buffer (length word) c)) longer
    ∙ take-set_next buffer (length word) c h
    ∙ ap (λ l. l ++ c ∷ []) text

-- A call ends as the reading does, within the buffer.
abbrev Ends : ℕ → Reading → Option Reader → Type 0
Ends left a o = (buffer : List ℕ) × (o ≡ some (onto buffer a)) × Fits left buffer a

Ends-if :
    (left : ℕ) (b : Bool) (a a' : Reading) (o o' : Option Reader)
    → Ends left a o
    → Ends left a' o'
    → Ends left (if b then a else a') (if b then o else o')
Ends-if left true a a' o o' h k = h
Ends-if left false a a' o o' h k = k

keep-Ends :
    (c left : ℕ) (buffer : List ℕ) (a : Reading)
    → take (length a.word) buffer ≡ a.word
    → length a.word + 1 + (if a.escaped then 1 else 0) + left < length buffer
    → Ends left (keep_text c a) (keep c (onto buffer a))
keep-Ends c left buffer a text room =
    let longer : suc (length a.word) ≡ length (a.word ++ c ∷ []) =
      omega (arith, length-append a.word (c ∷ [])) in
    let same = length-set buffer (length a.word) c in
    (
      set buffer (length a.word) c,
      keep-onto c buffer a (omega arith),
      record {
        text = kept_text c buffer a.word (omega arith) text;
        room = omega (arith, same, longer, room);
      },
    )

read-Ends :
    (c left : ℕ) (buffer : List ℕ) (a : Reading)
    → Fits (suc left) buffer a
    → Ends left (read_text c a) (read c (onto buffer a))
unfolding read read_text
read-Ends c left buffer a f =
    let kept = keep-Ends c left buffer a f.text (omega (arith, f.room)) in
    let same = length-set buffer (length a.word) 0 in
    Ends-if left a.escaped _ _ _ _
      (keep-Ends c left buffer (record a { escaped = false }) f.text (omega (arith, f.room)))
      (Ends-if left (c == b' ') _ _ _ _
        (Ends-if left a.in_ticks _ _ _ _ kept (
          set buffer (length a.word) 0,
          push-onto buffer a (omega (arith, f.room)) f.text,
          record { text = refl; room = omega (arith, same, f.room) },
        ))
        (Ends-if left (c == b'"') _ _ _ _
          (buffer, refl, record { text = f.text; room = omega (arith, f.room) })
          (Ends-if left (c == b'\\') _ _ _ _
            (buffer, refl, record { text = f.text; room = omega (arith, f.room) }) kept)))

read_all-Ends :
    (cs : Text) (buffer : List ℕ) (a : Reading)
    → Fits (length cs) buffer a
    → Ends 0 (read_texts cs a) (read_all cs (onto buffer a))
unfolding read_all read_texts
read_all-Ends [] buffer a f = (buffer, refl, f)
read_all-Ends (c ∷ cs) buffer a f =
    let (buffer', now, f') = read-Ends c (length cs) buffer a f in
    let (last, rest, done) = read_all-Ends cs buffer' (read_text c a) f' in
    (last, ap (λ o. bind o (read_all cs)) now ∙ rest, done)

push_last-onto :
    (buffer : List ℕ) (a : Reading) (word : Text)
    → a.word ≡ word
    → length a.word < length buffer
    → take (length a.word) buffer ≡ a.word
    → push_last (onto buffer a) ≡ some (push_last_text a)
unfolding push_last
push_last-onto buffer a [] e h text = rw e refl
push_last-onto buffer a (c ∷ cs) e h text =
    let filled : (length a.word == 0) ≡ false = ground (arith, ap length e) in
    let some_left : is_empty a.word ≡ false = ap is_empty e in
    rw (filled, some_left) (ap (λ o. bind o get_command_line) (push-onto buffer a h text))

abbrev Ready : Reading → Option Reader → Type 0
Ready a o = bind o push_last ≡ some (push_last_text a)

Ready-if :
    (b : Bool) (a a' : Reading) (o o' : Option Reader)
    → (b ≡ true → Ready a o)
    → Ready a' o'
    → Ready (if b then a else a') (if b then o else o')
Ready-if true a a' o o' h k = h refl
Ready-if false a a' o o' h k = k

kept-Ready :
    (buffer : List ℕ) (a : Reading)
    → take (length a.word) buffer ≡ a.word
    → length a.word + 1 < length buffer
    → Ready (keep_text 0 a) (keep 0 (onto buffer a))
kept-Ready buffer a text room =
    let longer : suc (length a.word) ≡ length (a.word ++ 0 ∷ []) =
      omega (arith, length-append a.word (0 ∷ [])) in
    let same = length-set buffer (length a.word) 0 in
    ap (λ o. bind o push_last) (keep-onto 0 buffer a (omega arith))
    ∙ push_last-onto (set buffer (length a.word) 0) (keep_text 0 a) (a.word ++ 0 ∷ []) refl
        (omega (arith, same, longer, room)) (kept_text 0 buffer a.word (omega arith) text)

finish-onto :
    (buffer : List ℕ) (a : Reading)
    → Fits 0 buffer a
    → finish (onto buffer a) ≡ some (finish_text a)
unfolding finish finish_text
finish-onto buffer a f =
    Ready-if a.escaped (keep_text 0 a) a (keep 0 (onto buffer a)) (some (onto buffer a))
      (λ t. kept-Ready buffer a f.text (ground (arith, f.room, t)))
      (push_last-onto buffer a a.word refl (omega (arith, f.room)) f.text)

-- For every command all writes fall within the `length + 1` bytes of the buffer, the 0 behind each word
-- and the byte behind a last backslash included. The words are those of a word that can grow at will.
pub build_command_line-words_of :
    (command : Text) → build_command_line command ≡ some (words_of command)
unfolding build_command_line words_of
build_command_line-words_of command =
    let n = length command in
    let long = length-replicate {A = ℕ} (n + 1) 0 in
    let (buffer, reads, f) =
      read_all-Ends command (replicate (n + 1) 0) new_reading
        (record { text = refl; room = omega (arith, long) }) in
    ap (λ o. bind o finish) reads ∙ finish-onto buffer (read_texts command new_reading) f
