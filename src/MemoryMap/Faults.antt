-- ===== src/MemoryMap/Faults.antt =====
-- What is left behind when a file cannot be resized.
use lunchbox.Prelude.{
  ℕ, ◌≡◌, ◌≢◌, ◌<◌, refl, false, [], ◌∷◌, none, some, arith, ==-false, ==-refl, ltb-true,
}
use lunchbox.MemoryMap.{Answers, Held, new_map, unmap, resize, create}

-- `resize` of a mapped file to another size that `ftruncate` refuses: the call returns null, and the
-- object keeps the address and the size of memory that is no longer mapped.
pub resize_dangles :
    (a : Answers) (n p f size : ℕ)
    → size ≢ n
    → 0 < n
    → a.truncated ≡ false
    → resize a n (record {
      map = record { ptr = some p; size = size; map_fd = some f };
      os = record { files = f ∷ []; mappings = (p, size) ∷ [] };
    })
      ≡ some (
        record {
          map = record { ptr = some p; size = size; map_fd = some f };
          os = record { files = f ∷ []; mappings = [] };
        },
        none,
      )
unfolding resize
resize_dangles a n p f size differs positive refused =
    rw (==-false size n differs, ==-refl p, ==-refl size, ltb-true 0 n positive, refused) refl

-- `create` of a file that `ftruncate` refuses: the call returns null, the object counts as not mapped,
-- and the file stays open, also behind `unmap`.
pub create_leaks :
    (a : Answers) (n f : ℕ)
    → 0 < n
    → a.opened ≡ some f
    → a.truncated ≡ false
    → (h : Held) × (create a n (record { map = new_map; os = record { files = []; mappings = [] } })
        ≡ some (h, none))
      × (h.map.ptr ≡ none)
      × ((unmap h).os.files ≡ f ∷ [])
unfolding create new_map unmap
create_leaks a n f positive opens refused = (
  record {
    map = record { ptr = none; size = 0; map_fd = some f };
    os = record { files = f ∷ []; mappings = [] };
  },
  rw (==-false n 0 (λ e. omega (arith, e, positive)), opens, ltb-true 0 n positive, refused) refl,
  refl,
  refl,
)
