-- ===== src/MemoryMap.antt =====
-- lunchbox/memoryMap.cpp, the code for POSIX: a file that is mapped into memory. The operating system
-- answers each call as it likes; what it keeps open for the object is part of the state.
pub mod Tidy
pub mod Faults
mod Tests
use lunchbox.Prelude.{
  ℕ, Bool, true, false, not, ◌&&◌, ◌||◌, List, [], ◌∷◌, Option, none, some, ltb, ◌==◌, bind,
  if◌then◌else◌,
}

-- `ptr`, `size` and `_map`, which is 0 or -1 where it is `none` here.
pub record MemoryMap : Type 0 where
  pub ptr : Option ℕ
  pub size : ℕ
  pub map_fd : Option ℕ

-- The file descriptors that are open and the mappings that are there, by address and size.
pub record Os : Type 0 where
  pub files : List ℕ
  pub mappings : List (ℕ × ℕ)

-- What `open`, `ftruncate`, `fstat` and `mmap` answer in one call.
pub record Answers : Type 0 where
  pub opened : Option ℕ
  pub truncated : Bool
  pub file_size : ℕ
  pub mapped : Option ℕ

-- The state of both, and what a call returns. A call is `none` where an assertion fails.
pub record Held : Type 0 where
  pub map : MemoryMap
  pub os : Os

abbrev pub Result : Type 0
Result = Option (Held × Option ℕ)

abbrev pub close_file : Option ℕ → List ℕ → List ℕ
close_file none fs = fs
close_file (some f) [] = []
close_file (some f) (g ∷ fs) = if f == g then fs else g ∷ close_file (some f) fs

abbrev pub unmap_memory : ℕ → ℕ → List (ℕ × ℕ) → List (ℕ × ℕ)
unmap_memory p n [] = []
unmap_memory p n (m ∷ ms) = if m.0 == p && m.1 == n then ms else m ∷ unmap_memory p n ms

unfoldable pub new_map : MemoryMap
new_map = record { ptr = none; size = 0; map_fd = none }

-- The end of `_mapFile`: `mmap`, and what follows it.
unfoldable pub map_memory : Option ℕ → ℕ → Held → Held × Option ℕ
map_memory none n h = (
  record {
    map = record { ptr = none; size = 0; map_fd = none };
    os = record { files = close_file h.map.map_fd h.os.files; mappings = h.os.mappings };
  },
  none,
)
map_memory (some p) n h = (
  record {
    map = record { ptr = some p; size = n; map_fd = h.map.map_fd };
    os = record { files = h.os.files; mappings = (p, n) ∷ h.os.mappings };
  },
  some p,
)

-- `_mapFile`
unfoldable pub map_file : Answers → ℕ → Held → Result
unfolding map_memory
map_file a n h =
    if ltb 0 n && not a.truncated
    then some (h, none)
    else if n == 0 || n == a.file_size
    then some (map_memory a.mapped a.file_size h)
    else none

-- `_init`, by what `open` answers.
unfoldable pub open_file : Option ℕ → Answers → ℕ → Held → Result
unfolding map_file
open_file none a n h =
    some (
      record { map = record { ptr = h.map.ptr; size = h.map.size; map_fd = none }; os = h.os },
      none,
    )
open_file (some f) a n h = map_file a n (record {
  map = record { ptr = h.map.ptr; size = h.map.size; map_fd = some f };
  os = record { files = f ∷ h.os.files; mappings = h.os.mappings };
})

-- `init`, `unmap` and `resize` by the pointer.
unfoldable pub init_at : Option ℕ → Answers → ℕ → Held → Result
unfolding open_file
init_at (some p) a n h = some (h, none)
init_at none a n h = open_file a.opened a n h

unfoldable pub init : Answers → ℕ → Held → Result
unfolding init_at
init a n h = init_at h.map.ptr a n h

unfoldable pub unmap_at : Option ℕ → Held → Held
unfolding new_map
unmap_at none h = h
unmap_at (some p) h = record {
  map = new_map;
  os = record {
    files = close_file h.map.map_fd h.os.files;
    mappings = unmap_memory p h.map.size h.os.mappings;
  };
}

unfoldable pub unmap : Held → Held
unfolding unmap_at
unmap h = unmap_at h.map.ptr h

unfoldable pub resize_at : Option ℕ → Answers → ℕ → Held → Result
unfolding map_file
resize_at none a n h = some (h, none)
resize_at (some p) a n h =
    if h.map.size == n
    then some (h, some p)
    else map_file a n (record {
      map = h.map;
      os = record { files = h.os.files; mappings = unmap_memory p h.map.size h.os.mappings };
    })

unfoldable pub resize : Answers → ℕ → Held → Result
unfolding resize_at
resize a n h = resize_at h.map.ptr a n h

-- The members of `lunchbox::MemoryMap`.
unfoldable pub map_whole : Answers → Held → Result
unfolding init
map_whole a h = init a 0 h

unfoldable pub remap : Answers → Held → Result
unfolding init unmap
remap a h = init a 0 (unmap h)

unfoldable pub create : Answers → ℕ → Held → Result
unfolding init
create a n h = if n == 0 then none else init a n h

unfoldable pub recreate : Answers → ℕ → Held → Result
unfolding create unmap
recreate a n h = create a n (unmap h)

-- The calls of a program, in order.
pub data Call : Type 0 where
  maps : Answers → Call
  remaps : Answers → Call
  creates : Answers → ℕ → Call
  recreates : Answers → ℕ → Call
  resizes : Answers → ℕ → Call
  unmaps : Call

unfoldable pub call : Call → Held → Result
unfolding map_whole remap create recreate resize unmap
call (maps a) h = map_whole a h
call (remaps a) h = remap a h
call (creates a n) h = create a n h
call (recreates a n) h = recreate a n h
call (resizes a n) h = resize a n h
call unmaps h = some (unmap h, none)

unfoldable pub calls : List Call → Held → Option Held
unfolding call
calls [] h = some h
calls (c ∷ cs) h = bind (call c h) (λ r. calls cs r.0)

-- The constructors: `none` within is the exception.
unfoldable pub construct : Answers → Os → Option (Option Held)
unfolding map_whole new_map
construct a os =
    bind (map_whole a (record { map = new_map; os = os }))
      (λ r. elim r.1 [ none ↦ some none | some p ↦ some (some r.0) ])

unfoldable pub construct_file : Answers → ℕ → Os → Option (Option Held)
unfolding create new_map
construct_file a n os =
    bind (create a n (record { map = new_map; os = os }))
      (λ r. elim r.1 [ none ↦ some none | some p ↦ some (some r.0) ])
