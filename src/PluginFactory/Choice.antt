-- ===== src/PluginFactory/Choice.antt =====
-- Which plugin a factory chooses, and why none is ever deregistered.
use lunchbox.Prelude.{
  Bool, ℕ, ◌≡◌, ◌≢◌, refl, sym, ap, ◌∙◌, inl, inr, true, false, List, [], ◌∷◌, ◌++◌, none, some,
  if◌then◌else◌, Bool-cases, ==-false, arith,
}
use lunchbox.PluginFactory.{
  Plugin, PluginFactory, same_plugin, handled_in, handles, create_in, create, register, new_factory,
  find_in, deregister,
}

module _ {D T : Type 0} where
  handled_in-append :
      (ps : List (Plugin D T)) (q : Plugin D T) (d : D)
      → handled_in (ps ++ q ∷ []) d ≡ (if handled_in ps d then true else q.handles_data d)
  handled_in-append [] q d = ground arith
  handled_in-append (p ∷ ps) q d = elim (Bool-cases (p.handles_data d)) [
    | inl t ↦ rw t refl
    | inr t ↦ rw t (handled_in-append ps q d)
  ]

  create_in-append :
      (ps : List (Plugin D T)) (q : Plugin D T) (d : D)
      → create_in (ps ++ q ∷ []) d ≡ (
          if handled_in ps d
          then create_in ps d
          else (if q.handles_data d then some (q.constructor d) else none))
  create_in-append [] q d = refl
  create_in-append (p ∷ ps) q d = elim (Bool-cases (p.handles_data d)) [
    | inl t ↦ rw t refl
    | inr t ↦ rw t (create_in-append ps q d)
  ]

  -- A plugin that is registered is asked after all others: it adds the data that it handles, and makes
  -- what no plugin before it handles.
  pub create-register :
      (at : ℕ) (p : Plugin D T) (f : PluginFactory D T) (d : D)
      → (handles (register at p f) d ≡ (if handles f d then true else p.handles_data d))
        × (create (register at p f) d ≡ (
            if handles f d
            then create f d
            else (if p.handles_data d then some (p.constructor d) else none)))
  unfolding create register handles
  create-register at p f d = (
    handled_in-append f.plugins (record p { address = at }) d,
    create_in-append f.plugins (record p { address = at }) d,
  )

  -- The calls of `register_`, each with the address of the copy in the vector.
  abbrev pub register_all : List (ℕ × Plugin D T) → PluginFactory D T → PluginFactory D T
  register_all [] f = f
  register_all (r ∷ rs) f = register_all rs (register r.0 r.1 f)

  -- No copy in the vector has the address of the object `p`, which lives elsewhere.
  abbrev pub IsElsewhere : Plugin D T → List (ℕ × Plugin D T) → Type 0
  IsElsewhere p [] = Unit
  IsElsewhere p (r ∷ rs) = (r.0 ≢ p.address) × IsElsewhere p rs

  find_in-append :
      (p q : Plugin D T) (qs : List (Plugin D T))
      → find_in p qs ≡ false
      → q.address ≢ p.address
      → find_in p (qs ++ q ∷ []) ≡ false
  find_in-append p q [] h ne = rw (==-false q.address p.address ne) refl
  find_in-append p q (r ∷ qs) h ne = elim (Bool-cases (same_plugin r p)) [
    | inl t ↦ let found : find_in p (r ∷ qs) ≡ true = rw t refl in absurd (no_both (sym found ∙ h))
    | inr t ↦
        let rest : find_in p (r ∷ qs) ≡ find_in p qs = rw t refl in
        rw t (find_in-append p q qs (sym rest ∙ h) ne)
  ]
    where
      no_both : true ≢ false
      no_both u = cc

  find_in-register_all :
      (p : Plugin D T) (rs : List (ℕ × Plugin D T)) (f : PluginFactory D T)
      → IsElsewhere p rs
      → find_in p f.plugins ≡ false
      → find_in p (register_all rs f).plugins ≡ false
  unfolding register
  find_in-register_all p [] f apart h = h
  find_in-register_all p (r ∷ rs) f apart h =
      find_in-register_all p rs (register r.0 r.1 f) apart.1
        (find_in-append p (record r.1 { address = r.0 }) f.plugins h apart.0)

  handles-register_all :
      (rs : List (ℕ × Plugin D T)) (f : PluginFactory D T) (d : D)
      → handles f d ≡ true
      → handles (register_all rs f) d ≡ true
  handles-register_all [] f d h = h
  handles-register_all (r ∷ rs) f d h =
      handles-register_all rs (register r.0 r.1 f) d ((create-register r.0 r.1 f d).0 ∙ rw h refl)

  -- A plugin that is registered, whatever is registered before and after it, and then deregistered with
  -- the same object, which lives outside of the factory's vector: `deregister` does not find it and
  -- returns false, and the factory goes on to handle all that the plugin handles.
  pub deregister-register :
      (at : ℕ) (p : Plugin D T) (rs rs' : List (ℕ × Plugin D T))
      → IsElsewhere p rs
      → at ≢ p.address
      → IsElsewhere p rs'
      → (let g = register_all rs' (register at p (register_all rs new_factory)) in
          (deregister p g ≡ (g, false))
          × ((d : D) → p.handles_data d ≡ true → handles (deregister p g).0 d ≡ true))
  unfolding deregister new_factory register
  deregister-register at p rs rs' apart apart_at apart' =
      let f : PluginFactory D T = register_all rs new_factory in
      let g : PluginFactory D T = register_all rs' (register at p f) in
      let missing : find_in p g.plugins ≡ false =
        find_in-register_all p rs' (register at p f) apart' (
          find_in-append p (record p { address = at }) f.plugins
            (find_in-register_all p rs new_factory apart refl) apart_at) in
      let left : deregister p g ≡ (g, false) = rw missing refl in
      (
        left,
        λ d own.
            ap (λ k. handles k.0 d) left
            ∙ handles-register_all rs' (register at p f) d
                ((create-register at p f d).0 ∙ rw own (or_true (handles f d))),
      )
    where
      or_true : (b : Bool) → (if b then true else true) ≡ true
      or_true true = refl
      or_true false = refl
