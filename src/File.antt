-- ===== src/File.antt =====
-- lunchbox/file.cpp: the parts of a path, and objects that are saved to a file and loaded from it. A text
-- and the content of a file are lists of bytes.
pub mod Paths
pub mod Saves
mod Tests
use lunchbox.Prelude.{
  ℕ, ◌+◌, Bool, true, false, ◌&&◌, ◌||◌, List, [], ◌∷◌, ◌++◌, Option, none, some, ◌==◌, ltb, leb,
  bind, if◌then◌else◌, length, take, drop, same_text,
}
use lunchbox.Log.{Text}

abbrev pub is_separator : ℕ → Bool
is_separator c = c == b'/' || c == b'\\'

-- `find_last_of("/\\")`
abbrev pub later : Bool → Option ℕ → Option ℕ
later b (some i) = some (i + 1)
later true none = some 0
later false none = none

abbrev pub last_separator : Text → Option ℕ
last_separator [] = none
last_separator (c ∷ cs) = later (is_separator c) (last_separator cs)

abbrev pub filename_from : Text → Option ℕ → Text
filename_from name none = name
filename_from name (some i) = drop (i + 1) name

unfoldable pub get_filename : Text → Text
get_filename name = filename_from name (last_separator name)

abbrev pub dirname_from : Text → Option ℕ → Text
dirname_from name none = b'.' ∷ b'/' ∷ []
dirname_from name (some i) = take (i + 1) name

unfoldable pub get_dirname : Text → Text
get_dirname name = dirname_from name (last_separator name)

-- The `MemoryMap` of a file: its constructor throws, or the address is null, or there is memory.
pub data Mapped : Type 0 where
  throws : Mapped
  null : Mapped
  memory : List ℕ → Mapped

-- What a call ends with: an exception, or a write that leaves the memory, is `none`.
abbrev pub Saved : Type 0
Saved = Option (Bool × List ℕ)

-- `memcpy` into the memory, which `none` leaves.
unfoldable pub memcpy : ℕ → List ℕ → List ℕ → Option (List ℕ)
memcpy offset bytes mem =
    if leb (offset + length bytes) (length mem)
    then some (take offset mem ++ (bytes ++ drop (offset + length bytes) mem))
    else none

abbrev pub accept : List ℕ → Saved
accept mem = some (true, mem)

abbrev save_binary_to : List ℕ → List ℕ → Mapped → Saved
save_binary_to id content throws = none
save_binary_to id content null = some (false, [])
save_binary_to id content (memory mem) =
    bind (bind (memcpy 0 id mem) (memcpy (length id) content)) accept

-- `saveBinary` and `saveAscii`: `create` is the mapping of a file that is made with a size, and `id`
-- the 16 bytes of the object's `getTypeIdentifier`.
unfoldable pub save_binary : (ℕ → Mapped) → List ℕ → List ℕ → Saved
save_binary create id content = save_binary_to id content (create (16 + length content))

abbrev save_ascii_to : Text → Mapped → Saved
save_ascii_to content throws = none
save_ascii_to content null = some (false, [])
save_ascii_to content (memory mem) = bind (memcpy 0 content mem) accept

unfoldable pub save_ascii : (ℕ → Mapped) → Text → Saved
save_ascii create content = save_ascii_to content (create (length content))

-- `loadBinary` and `loadAscii`: `from` is the object's `fromBinary` and `fromJSON`. The call is `none`
-- when it throws, and `some none` when it returns false.
module _ {ℓ} {S : Type ℓ} (from : List ℕ → S) where
  unfoldable pub load_binary : Mapped → List ℕ → Option (Option S)
  load_binary throws id = none
  load_binary null id = some none
  load_binary (memory mem) id =
      if ltb (length mem) 16
      then some none
      else if same_text (take 16 mem) id
      then some (some (from (drop 16 mem)))
      else some none

  unfoldable pub load_ascii : Mapped → Option (Option S)
  load_ascii throws = none
  load_ascii null = some none
  load_ascii (memory mem) = some (some (from mem))
