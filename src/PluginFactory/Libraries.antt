-- ===== src/PluginFactory/Libraries.antt =====
-- The libraries that stay open, and that all of them are closed in the end.
use lunchbox.Prelude.{
  ℕ, ◌≡◌, refl, sym, ap, ◌∙◌, subst, inl, inr, Bool, true, false, ◌&&◌, List, [], ◌∷◌, ◌++◌, Option,
  none, some, if◌then◌else◌, Bool-cases, Option-cases, some-eq, ==-refl,
}
use lunchbox.PluginFactory.{
  Plugin, PluginFactory, Library, matches, new_factory, close_all, deregister_all, last_of,
  enter_library, register_library, load_library, load,
}

module _ {D T : Type 0} where
  abbrev pub registers : Option (List (Plugin D T) × Bool) → Bool
  registers none = false
  registers (some (ps, ok)) = ok

  -- The library opens, has the version that is asked for, and has registered a plugin.
  abbrev pub is_eligible : ℕ → Library D T → Bool
  is_eligible version l = l.opens && (matches version l.version && registers l.registration)

  -- The handles of the libraries that are eligible, the last one first, on top of others.
  abbrev pub eligible_onto : ℕ → List (ℕ × Library D T) → List ℕ → List ℕ
  eligible_onto version [] hs = hs
  eligible_onto version (l ∷ ls) hs =
      eligible_onto version ls (if is_eligible version l.1 then l.0 ∷ hs else hs)

  abbrev pub handles_of : List (ℕ × Plugin D T) → List ℕ
  handles_of [] = []
  handles_of (l ∷ ls) = l.0 ∷ handles_of ls

  -- The handles that a factory keeps and that are open.
  abbrev pub Keeps : PluginFactory D T → List ℕ → Type 0
  Keeps f hs = (handles_of f.libraries ≡ hs) × (f.open_handles ≡ hs)

  became : (f g : PluginFactory D T) (hs : List ℕ) → some f ≡ some g → Keeps f hs → Keeps g hs
  became f g hs e k = subst (λ u. Keeps u hs) (some-eq f g e) k

  enter_library-Keeps :
      (h : ℕ) (ok : Bool) (p : Option (Plugin D T)) (f g : PluginFactory D T) (hs : List ℕ)
      → Keeps f hs
      → enter_library h ok p f ≡ some g
      → Keeps g (if ok then h ∷ hs else hs)
  unfolding enter_library
  enter_library-Keeps h true none f g hs k e = cc
  enter_library-Keeps h true (some p) f g hs k e =
      became _ g (h ∷ hs) e (ap (λ u. h ∷ u) k.0, ap (λ u. h ∷ u) k.1)
  enter_library-Keeps h false none f g hs k e = became f g hs e k
  enter_library-Keeps h false (some p) f g hs k e = became f g hs e k

  register_library-Keeps :
      (h : ℕ) (b : Bool) (r : Option (List (Plugin D T) × Bool)) (f g : PluginFactory D T)
      (hs : List ℕ)
      → Keeps f hs
      → register_library h b r f ≡ some g
      → Keeps g (if b && registers r then h ∷ hs else hs)
  unfolding register_library
  register_library-Keeps h true none f g hs k e = became f g hs e k
  register_library-Keeps h true (some (ps, ok)) f g hs k e =
      enter_library-Keeps h ok (last_of (f.plugins ++ ps)) _ g hs k e
  register_library-Keeps h false none f g hs k e = became f g hs e k
  register_library-Keeps h false (some r) f g hs k e = became f g hs e k

  load_library-Keeps :
      (version h : ℕ) (l : Library D T) (f g : PluginFactory D T) (hs : List ℕ)
      → Keeps f hs
      → load_library version h l f ≡ some g
      → Keeps g (if is_eligible version l then h ∷ hs else hs)
  unfolding load_library
  load_library-Keeps version h l f g hs k e = elim (Bool-cases l.opens) [
    | inl t ↦
        let u : load_library version h l f
            ≡ register_library h (matches version l.version) l.registration f =
          rw (load_library, t) refl in
        let shown : is_eligible version l
            ≡ (matches version l.version && registers l.registration) =
          rw t refl in
        subst (λ b. Keeps g (if b then h ∷ hs else hs)) (sym shown)
          (register_library-Keeps h (matches version l.version) l.registration f g hs k (sym u ∙ e))
    | inr t ↦
        let u : load_library version h l f ≡ some f = rw (load_library, t) refl in
        let shown : is_eligible version l ≡ false = rw t refl in
        subst (λ b. Keeps g (if b then h ∷ hs else hs)) (sym shown) (became f g hs (sym u ∙ e) k)
  ]

  load-Keeps :
      (version : ℕ) (ls : List (ℕ × Library D T)) (f g : PluginFactory D T) (hs : List ℕ)
      → Keeps f hs
      → load version ls f ≡ some g
      → Keeps g (eligible_onto version ls hs)
  unfolding load
  load-Keeps version [] f g hs k e = became f g hs e k
  load-Keeps version (l ∷ ls) f g hs k e = elim (Option-cases (load_library version l.0 l.1 f)) [
    | inl fails ↦ let u : load version (l ∷ ls) f ≡ none = rw (load, fails) refl in cc
    | inr (m, first) ↦
        let u : load version (l ∷ ls) f ≡ load version ls m = rw (load, first) refl in
        load-Keeps version ls m g _ (load_library-Keeps version l.0 l.1 f m hs k first) (sym u ∙ e)
  ]

  close_all_lem : (ls : List (ℕ × Plugin D T)) → close_all ls (handles_of ls) ≡ []
  close_all_lem [] = refl
  close_all_lem (l ∷ ls) = rw (==-refl l.0) (close_all_lem ls)

  -- After `load` into a new factory the open libraries are those that are kept, and these are exactly the
  -- ones that open, have the version and report a registration; all others are closed again.
  -- `deregisterAll` then closes every one and leaves a new factory.
  pub load-deregister_all :
      (version : ℕ) (ls : List (ℕ × Library D T)) (f : PluginFactory D T)
      → load version ls new_factory ≡ some f
      → (handles_of f.libraries ≡ eligible_onto version ls [])
        × (f.open_handles ≡ eligible_onto version ls [])
        × (deregister_all f ≡ new_factory)
  unfolding deregister_all new_factory
  load-deregister_all version ls f e =
      let k = load-Keeps version ls new_factory f [] (refl, refl) e in
      let none_open : close_all f.libraries f.open_handles ≡ [] =
        ap (close_all f.libraries) (k.1 ∙ sym k.0) ∙ close_all_lem f.libraries in
      (k.0, k.1, ap (λ hs. record { plugins = []; libraries = []; open_handles = hs }) none_open)
