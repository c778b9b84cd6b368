-- ===== src/MemoryMap/Tests.antt =====
-- A file that is mapped, and files that cannot be resized.
use lunchbox.Prelude.{◌≡◌, refl, true, false, List, [], ◌∷◌, none, some, inl}
use lunchbox.MemoryMap.{Answers, Held, Call, unmap, calls, construct}
use lunchbox.MemoryMap.Tidy.{IsTidy, IsReleased, nothing_held, calls_held}

abbrev good : Answers
good = record { opened = some 3; truncated = true; file_size = 100; mapped = some 4096 }

abbrev unmappable : Answers
unmappable = record good { mapped = none }

abbrev fixed : Answers
fixed = record good { truncated = false }

abbrev mapped_once : Held
mapped_once = record {
  map = record { ptr = some 4096; size = 100; map_fd = some 3 };
  os = record { files = 3 ∷ []; mappings = (4096, 100) ∷ [] };
}

abbrev some_calls : List Call
some_calls =
    Call.maps unmappable ∷ Call.creates good 100 ∷ Call.resizes good 0 ∷ Call.maps good ∷ []

some_calls_run : calls some_calls nothing_held ≡ some mapped_once
unfolding calls
some_calls_run = refl

calls_held_example : IsTidy mapped_once × IsReleased (unmap mapped_once)
calls_held_example =
    calls_held some_calls mapped_once (tt, (refl, (inl refl, (tt, tt)))) some_calls_run

construct_throws : construct (record good { opened = none }) (nothing_held.os) ≡ some none
unfolding construct
construct_throws = refl
