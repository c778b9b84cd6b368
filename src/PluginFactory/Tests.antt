-- ===== src/PluginFactory/Tests.antt =====
-- A factory with plugins for small and for even numbers.
use lunchbox.Prelude.{ℕ, ◌≡◌, refl, true, false, List, [], ◌∷◌, none, some, ltb, arith}
use lunchbox.PluginFactory.{
  Plugin, PluginFactory, Library, new_factory, handles, create, register, deregister,
  deregister_all, load, get_descriptions,
}
use lunchbox.PluginFactory.Choice.{register_all, deregister-register}
use lunchbox.PluginFactory.Libraries.{handles_of, eligible_onto, load-deregister_all}

abbrev small : Plugin ℕ ℕ
small = record {
  address = 100;
  constructor = λ d. 1;
  handles_data = λ d. ltb d 10;
  description = b's' ∷ [];
}

abbrev any : Plugin ℕ ℕ
any = record {
  address = 101;
  constructor = λ d. 2;
  handles_data = λ d. true;
  description = b'a' ∷ [];
}

-- The plugin `small` is registered from its object at 100, and its copy is at 200.
abbrev with_small : PluginFactory ℕ ℕ
with_small = record {
  plugins = record small { address = 200 } ∷ [];
  libraries = [];
  open_handles = [];
}

registered : register 200 small new_factory ≡ with_small
unfolding register new_factory
registered = refl

first_chosen : create (register 201 any with_small) 7 ≡ some 1
unfolding create register
first_chosen = refl

descriptions : get_descriptions (register 201 any with_small) ≡ b's' ∷ b'\n' ∷ b'\n' ∷ b'a' ∷ []
unfolding get_descriptions register
descriptions = refl

-- The object at 101 is registered between two others.
deregister-register_example :
    (let g =
        register_all
          ((202, small) ∷ [])
          (register 201 any (register_all ((200, small) ∷ []) new_factory)) in
      (deregister any g ≡ (g, false))
      × ((d : ℕ) → any.handles_data d ≡ true → handles (deregister any g).0 d ≡ true))
deregister-register_example =
    deregister-register 201 any ((200, small) ∷ []) ((202, small) ∷ [])
      ((λ e. omega (arith, e)), tt) (λ e. omega (arith, e)) ((λ e. omega (arith, e)), tt)

-- Its own copy is found.
own_copy : (deregister (record small { address = 200 }) with_small).1 ≡ true
unfolding deregister
own_copy = refl

abbrev libraries : List (ℕ × Library ℕ ℕ)
libraries =
    (1, record { opens = true; version = some 4; registration = some (any ∷ [], true) })
    ∷ (2, record { opens = true; version = some 3; registration = some (any ∷ [], true) })
    ∷ (3, record { opens = false; version = none; registration = none })
    ∷ []

abbrev loaded : PluginFactory ℕ ℕ
loaded = record { plugins = any ∷ []; libraries = (1, any) ∷ []; open_handles = 1 ∷ [] }

loads : load 4 libraries new_factory ≡ some loaded
unfolding load new_factory
loads = refl

load-deregister_all_example :
    (handles_of loaded.libraries ≡ eligible_onto 4 libraries [])
    × (loaded.open_handles ≡ eligible_onto 4 libraries [])
    × (deregister_all loaded ≡ new_factory)
load-deregister_all_example = load-deregister_all 4 libraries loaded loads
