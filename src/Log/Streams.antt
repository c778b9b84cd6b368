-- ===== src/Log/Streams.antt =====
-- Flushes that write byte by byte under the lock do what flushes in one step do.
use lunchbox.Prelude.{
  ℕ, ◌≡◌, refl, ap, ◌∙◌, subst, List, [], ◌∷◌, ◌++◌, some, bind, bind-eq_some, get_elem?, some-eq,
}
use lunchbox.Log.{Text, Format, LogBuffer, Call, System, step, steps}
use lunchbox.Log.Flush.{
  Program, new_program, Event, calls, enters, locks, puts, unlocks, enter, take_lock, release,
  make_call, event, events,
}
use lunchbox.Log.Texts.{layout_of, texts, calls_of, text_of, steps_text}
use lunchbox.Log.Whole.{Holds, unlocked, Sound, ended, all_ended, onto}
use lunchbox.Log.Follows.{
  Follows, outside-waiting, calls_follow, enters_follow, locks_follow, puts_follow, unlocks_follow,
}

event-Sound :
    (f : Format) (e : Event) (p q : Program) (bs : List (ℕ × Text))
    → event f e p ≡ some q
    → Sound p bs
    → Follows f (ended e) p bs q
unfolding event
event-Sound f (calls i c) p q bs e v =
    let (l, at, made) = bind-eq_some (get_elem? p.logs i) (make_call f i c p) q e in
    calls_follow f i c p q bs l at made v
event-Sound f (enters i) p q bs e v =
    let (l, at, entered) = bind-eq_some (get_elem? p.logs i) (enter i p) q e in
    enters_follow f i p q bs l at entered v
event-Sound f (locks i) p q bs e v =
    let (l, at, taken) =
      bind-eq_some (get_elem? p.logs i) (λ b. take_lock i p b (p.phases i) p.lock) q e in
    locks_follow f i p q bs l at taken v
event-Sound f (puts i) p q bs e v = puts_follow f i p q bs e v
event-Sound f (unlocks i) p q bs e v =
    let (l, at, freed) = bind-eq_some (get_elem? p.logs i) (λ b. release i p b (p.phases i)) q e in
    unlocks_follow f i p q bs l at freed v

steps-append :
    (f : Format) (es ds : List (ℕ × Call)) (r s t : System)
    → steps f es r ≡ some s
    → steps f ds s ≡ some t
    → steps f (es ++ ds) r ≡ some t
unfolding steps
steps-append f [] ds r s t a b = ap (steps f ds) (some-eq r s a) ∙ b
steps-append f (e ∷ es) ds r s t a b =
    let (m, first, rest) = bind-eq_some (step f e.0 e.1 r) (steps f es) s a in
    ap (λ k. bind k (steps f (es ++ ds))) first ∙ steps-append f es ds m s t rest b

events-Sound :
    (f : Format) (es : List Event) (p q : Program) (bs : List (ℕ × Text))
    → events f es p ≡ some q
    → Sound p bs
    → Follows f (all_ended es) p bs q
unfolding events steps
events-Sound f [] p q bs e v = subst (λ r. Follows f [] p bs r) (some-eq p q e) (bs, refl, v)
events-Sound f (x ∷ es) p q bs e v =
    let (r, now, rest) = bind-eq_some (event f x p) (events f es) q e in
    let (bs', ran, v') = event-Sound f x p r bs now v in
    let (last, ran', done) = events-Sound f es r q bs' rest v' in
    (
      last,
      steps-append f (ended x) (all_ended es) (onto p bs) (onto r bs') (onto q last) ran ran',
      done,
    )

-- Whatever calls the threads of a program make and however their flushes interleave, byte by byte: the
-- stream is made of whole buffers, and then at most the first bytes of the buffer of the thread that has
-- the lock, and no other thread is writing. What a thread has in these buffers and then what its log
-- still holds is what its log held at first and then the text of its own calls, with a header and the
-- indentation at each start of a line: none of it is lost, repeated or moved, by blocked flushes either.
pub events_text :
    (f : Format) (es : List Event) (logs : List LogBuffer) (q : Program) (i : ℕ) (l : LogBuffer)
    → events f es (new_program logs) ≡ some q
    → get_elem? logs i ≡ some l
    → (bs : List (ℕ × Text)) × (b : LogBuffer) × Holds q bs q.lock
      × (get_elem? q.logs i ≡ some b)
      × (texts i bs ++ b.buffer ≡ l.buffer ++ text_of f (calls_of i (all_ended es)) (layout_of l))
events_text f es logs q i l run at =
    let (bs, ran, v) =
      events-Sound f es (new_program logs) q [] run (record {
        holds = unlocked refl (λ j. refl);
        waits = λ j b w. absurd (outside-waiting w);
      }) in
    let (b, at_b, text) =
      steps_text f i (all_ended es) (onto (new_program logs) []) (onto q bs) (layout_of l) l.buffer
        ran (record { log = l; at = at; layout = refl; text = refl }) in
    (bs, b, v.holds, at_b, text)
