-- ===== src/File/Tests.antt =====
-- A path with two kinds of separators, and an object of four bytes in a file.
use lunchbox.Prelude.{ℕ, ◌≡◌, refl, true, List, [], ◌∷◌, none, some, replicate}
use lunchbox.File.{Mapped, memory, save_binary, save_ascii, load_binary, load_ascii, memcpy}
use lunchbox.File.Saves.{load_binary-save_binary}

abbrev zero_id : List ℕ
zero_id = replicate 16 0

abbrev one_id : List ℕ
one_id = replicate 16 1

abbrev zeros : ℕ → Mapped
zeros n = memory (replicate n 0)

abbrev content : List ℕ
content = 3 ∷ 1 ∷ 4 ∷ 1 ∷ []

load_binary-save_binary_example :
    (file : List ℕ) × (save_binary zeros one_id content ≡ some (true, file))
    × (load_binary (λ l. l) (memory file) one_id ≡ some (some content))
    × (load_binary (λ l. l) (memory file) zero_id ≡ some none)
load_binary-save_binary_example =
    load_binary-save_binary (λ l. l) zeros one_id content (replicate 20 0) zero_id refl refl refl
      refl

short_runs : load_binary {S = List ℕ} (λ l. l) (memory (replicate 15 0)) zero_id ≡ some none
unfolding load_binary
short_runs = refl

ascii_runs : save_ascii zeros content ≡ some (true, content)
unfolding save_ascii memcpy
ascii_runs = refl

load_ascii_runs : load_ascii (λ l. l) (memory content) ≡ some (some content)
unfolding load_ascii
load_ascii_runs = refl
