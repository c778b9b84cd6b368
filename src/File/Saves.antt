-- ===== src/File/Saves.antt =====
-- What is saved is loaded.
use lunchbox.Prelude.{
  ℕ, zero, suc, ◌+◌, ◌≡◌, refl, ap, ◌∙◌, true, false, List, [], ◌∷◌, ◌++◌, none, some, arith, take,
  drop, length, length-append, length-drop, bind, leb-true, ltb, ltb-false, same_text, ==-refl,
  append-nil, ◌≤◌,
}
use lunchbox.File.{Mapped, memory, memcpy, accept, save_binary, load_binary}

module _ {ℓ} {A : Type ℓ} where
  take_append : (n : ℕ) (xs ys : List A) → length xs ≡ n → take n (xs ++ ys) ≡ xs
  take_append zero [] ys e = refl
  take_append zero (x ∷ xs) ys e = absurd (omega arith)
  take_append (suc n) [] ys e = absurd (omega arith)
  take_append (suc n) (x ∷ xs) ys e = ap (λ l. x ∷ l) (take_append n xs ys (omega arith))

  drop_append : (n : ℕ) (xs ys : List A) → length xs ≡ n → drop n (xs ++ ys) ≡ ys
  drop_append zero [] ys e = refl
  drop_append zero (x ∷ xs) ys e = absurd (omega arith)
  drop_append (suc n) [] ys e = absurd (omega arith)
  drop_append (suc n) (x ∷ xs) ys e = drop_append n xs ys (omega arith)

  drop_all : (n : ℕ) (xs : List A) → length xs ≤ n → drop n xs ≡ []
  drop_all zero [] e = refl
  drop_all zero (x ∷ xs) e = absurd (omega arith)
  drop_all (suc n) [] e = refl
  drop_all (suc n) (x ∷ xs) e = drop_all n xs (omega arith)

memcpy_lem :
    (offset : ℕ) (bytes mem : List ℕ)
    → offset + length bytes ≤ length mem
    → memcpy offset bytes mem
      ≡ some (take offset mem ++ (bytes ++ drop (offset + length bytes) mem))
unfolding memcpy
memcpy_lem offset bytes mem fits = rw (leb-true (offset + length bytes) (length mem) fits) refl

same_text_refl : (t : List ℕ) → same_text t t ≡ true
same_text_refl [] = refl
same_text_refl (c ∷ cs) = rw (==-refl c, same_text_refl cs) refl

-- The memory behind the two writes.
written :
    (id content mem : List ℕ)
    → length id ≡ 16
    → length mem ≡ 16 + length content
    → bind (bind (memcpy 0 id mem) (memcpy (length id) content)) accept ≡ some (true, id ++ content)
written id content mem whole fits =
    let rest = drop (0 + length id) mem in
    let first : memcpy 0 id mem ≡ some (id ++ rest) = memcpy_lem 0 id mem (omega arith) in
    let long : length (id ++ rest) ≡ length id + length content =
      omega (arith, length-append id rest, length-drop (0 + length id) mem) in
    let second = memcpy_lem (length id) content (id ++ rest) (omega arith) in
    ap (λ m. bind (bind m (memcpy (length id) content)) accept) first
    ∙ ap (λ m. bind m accept) second
    ∙ rw
        (
          take_append (length id) id rest refl,
          drop_all (length id + length content) (id ++ rest) (omega arith),
          append-nil content,
        )
        refl

-- An object that is saved to a file that can be made: the call returns true, and the file holds its
-- identifier and its data. Loading it into an object of the same identifier gives that object the
-- data, and loading it into one of another identifier returns false.
pub load_binary-save_binary {ℓ} :
    {S : Type ℓ} (from : List ℕ → S) (create : ℕ → Mapped) (id content mem other : List ℕ)
    → length id ≡ 16
    → create (16 + length content) ≡ memory mem
    → length mem ≡ 16 + length content
    → same_text id other ≡ false
    → (file : List ℕ) × (save_binary create id content ≡ some (true, file))
      × (load_binary from (memory file) id ≡ some (some (from content)))
      × (load_binary from (memory file) other ≡ some none)
unfolding save_binary load_binary
load_binary-save_binary from create id content mem other whole made fits differs =
    let long : ltb (length (id ++ content)) 16 ≡ false =
      ltb-false (length (id ++ content)) 16 (omega (arith, length-append id content)) in
    (
      id ++ content,
      rw made (written id content mem whole fits),
      rw (long, take_append 16 id content whole, drop_append 16 id content whole, same_text_refl id)
          refl,
      rw (long, take_append 16 id content whole, differs) refl,
    )
