-- ===== src/IntervalSet/Calls.antt =====
-- Sequences of `insert`, `erase` and `clear` on a new set: what it holds, and its size.
use lunchbox.Prelude.{
  ℕ, ◌≤◌, ◌<◌, ◌%◌, ◌≡◌, refl, ap, ◌∙◌, Bool, false, not, ◌&&◌, ◌||◌, List, [], ◌∷◌, size_mod,
}
use lunchbox.IntervalSet.{IntervalSet, insert, erase, clear, size, empty_set}
use lunchbox.IntervalSet.Insert.{IsValid, contains, within}
use lunchbox.IntervalSet.Place.{contains-insert}
use lunchbox.IntervalSet.Erase.{contains-erase}
use lunchbox.IntervalSet.Whole.{clear-empty}
use lunchbox.IntervalSet.Size.{size-count, count_range, count_range-ext}

pub data Call : Type 0 where
  inserts : ℕ → ℕ → Call
  erases : ℕ → ℕ → Call
  clears : Call

abbrev pub call : Call → IntervalSet → IntervalSet
call (inserts s e) set = insert s e set
call (erases s e) set = erase s e set
call clears set = clear set

-- The calls, the last one first.
abbrev pub calls : List Call → IntervalSet → IntervalSet
calls [] set = set
calls (c ∷ cs) set = call c (calls cs set)

-- Whether a value is an element behind the calls, from the calls alone.
abbrev pub is_element : List Call → ℕ → Bool
is_element [] x = false
is_element (inserts s e ∷ cs) x = within s e x || is_element cs x
is_element (erases s e ∷ cs) x = not (within s e x) && is_element cs x
is_element (clears ∷ cs) x = false

-- The intervals are in the range of `size_t` and in order.
abbrev pub AreRanges : List Call → Type 0
AreRanges [] = Unit
AreRanges (inserts s e ∷ cs) = (s ≤ e) × (e < size_mod) × AreRanges cs
AreRanges (erases s e ∷ cs) = (s ≤ e) × (e < size_mod) × AreRanges cs
AreRanges (clears ∷ cs) = AreRanges cs

abbrev Sound : List Call → IntervalSet → Type 0
Sound cs set = IsValid set × ((x : ℕ) → contains set x ≡ is_element cs x)

calls-Sound : (cs : List Call) → AreRanges cs → Sound cs (calls cs empty_set)
unfolding empty_set
calls-Sound [] r = (record { edges = refl; counted = refl }, λ x. refl)
calls-Sound (inserts s e ∷ cs) r =
    let (valid, has) = calls-Sound cs r.2 in
    let (valid', has') = contains-insert s e (calls cs empty_set) r.0 r.1 valid in
    (valid', λ x. has' x ∙ ap (λ b. within s e x || b) (has x))
calls-Sound (erases s e ∷ cs) r =
    let (valid, has) = calls-Sound cs r.2 in
    let (valid', has') = contains-erase s e (calls cs empty_set) r.0 r.1 valid in
    (valid', λ x. has' x ∙ ap (λ b. not (within s e x) && b) (has x))
calls-Sound (clears ∷ cs) r =
    let (valid, none_left, has) = clear-empty (calls cs empty_set) in (valid, has)

-- Any calls of `insert`, `erase` and `clear` on an empty set, with intervals in the range of `size_t`: its
-- elements are those that the calls say, where the last call that is about a value decides, and
-- `size` is the number of them, modulo 2 ^ 64.
pub size-calls :
    (cs : List Call)
    → AreRanges cs
    → ((x : ℕ) → contains (calls cs empty_set) x ≡ is_element cs x)
      × (size (calls cs empty_set) ≡ count_range (is_element cs) 0 size_mod % size_mod)
size-calls cs r =
    let (valid, has) = calls-Sound cs r in
    (
      has,
      size-count (calls cs empty_set) valid
          ∙ ap (λ n. n % size_mod)
              (count_range-ext (contains (calls cs empty_set)) (is_element cs) size_mod 0
                (λ x lo. has x)),
    )
