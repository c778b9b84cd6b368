-- ===== src/PluginFactory.antt =====
-- lunchbox/plugin.h, pluginFactory.h and pluginFactory.ipp: the plugins of an application, and the
-- libraries that register them.
pub mod Choice
pub mod Libraries
mod Tests
use lunchbox.Prelude.{
  ℕ, ◌+◌, Bool, true, false, not, ◌&&◌, List, [], ◌∷◌, ◌++◌, Option, none, some, ◌==◌,
  if◌then◌else◌, length, same_text,
}

-- `Plugin`, with the address of the object. `D` is the data that a plugin is asked for and made from.
pub record Plugin (D T : Type 0) : Type 0 where
  pub address : ℕ
  pub constructor : D → T
  pub handles_data : D → Bool
  pub description : List ℕ

-- `_plugins`, `_libraries` by the handle of each library, and the handles that are open.
pub record PluginFactory (D T : Type 0) : Type 0 where
  pub plugins : List (Plugin D T)
  pub libraries : List (ℕ × Plugin D T)
  pub open_handles : List ℕ

-- What a library has: whether it opens, the version that LunchboxPluginGetVersion gives, and what
-- LunchboxPluginRegister registers and returns. `none` is a missing symbol.
pub record Library (D T : Type 0) : Type 0 where
  pub opens : Bool
  pub version : Option ℕ
  pub registration : Option (List (Plugin D T) × Bool)

abbrev pub remove_handle : ℕ → List ℕ → List ℕ
remove_handle h [] = []
remove_handle h (g ∷ gs) = if g == h then gs else g ∷ remove_handle h gs

abbrev pub matches : ℕ → Option ℕ → Bool
matches version none = false
matches version (some v) = v == version

module _ {D T : Type 0} where
  -- `Plugin::operator==` compares the addresses of two members, which agree for one object only, and then
  -- the descriptions.
  abbrev pub same_plugin : Plugin D T → Plugin D T → Bool
  same_plugin p q = p.address == q.address && same_text p.description q.description

  unfoldable pub new_factory : PluginFactory D T
  new_factory = record { plugins = []; libraries = []; open_handles = [] }

  abbrev pub handled_in : List (Plugin D T) → D → Bool
  handled_in [] d = false
  handled_in (p ∷ ps) d = if p.handles_data d then true else handled_in ps d

  unfoldable pub handles : PluginFactory D T → D → Bool
  handles f d = handled_in f.plugins d

  -- `create`: `none` is the exception.
  abbrev pub create_in : List (Plugin D T) → D → Option T
  create_in [] d = none
  create_in (p ∷ ps) d = if p.handles_data d then some (p.constructor d) else create_in ps d

  unfoldable pub create : PluginFactory D T → D → Option T
  create f d = create_in f.plugins d

  -- `register_`: the vector holds a copy, at the address `at`.
  unfoldable pub register : ℕ → Plugin D T → PluginFactory D T → PluginFactory D T
  register at p f = record f { plugins = f.plugins ++ record p { address = at } ∷ [] }

  abbrev pub find_in : Plugin D T → List (Plugin D T) → Bool
  find_in p [] = false
  find_in p (q ∷ qs) = if same_plugin q p then true else find_in p qs

  abbrev pub erase_in : Plugin D T → List (Plugin D T) → List (Plugin D T)
  erase_in p [] = []
  erase_in p (q ∷ qs) = if same_plugin q p then qs else q ∷ erase_in p qs

  unfoldable pub deregister : Plugin D T → PluginFactory D T → PluginFactory D T × Bool
  deregister p f =
      if find_in p f.plugins
      then (record f { plugins = erase_in p f.plugins }, true)
      else (f, false)

  abbrev pub close_all : List (ℕ × Plugin D T) → List ℕ → List ℕ
  close_all [] hs = hs
  close_all (l ∷ ls) hs = close_all ls (remove_handle l.0 hs)

  unfoldable pub deregister_all : PluginFactory D T → PluginFactory D T
  deregister_all f = record {
    plugins = [];
    libraries = [];
    open_handles = close_all f.libraries f.open_handles;
  }

  abbrev pub last_of : List (Plugin D T) → Option (Plugin D T)
  last_of [] = none
  last_of (p ∷ []) = some p
  last_of (p ∷ q ∷ ps) = last_of (q ∷ ps)

  -- The end of `load` for one library: `none` is the last plugin of an empty vector.
  unfoldable pub enter_library :
      ℕ → Bool → Option (Plugin D T) → PluginFactory D T → Option (PluginFactory D T)
  enter_library h true none f = none
  enter_library h true (some p) f =
      some (record f { libraries = (h, p) ∷ f.libraries; open_handles = h ∷ f.open_handles })
  enter_library h false p f = some f

  unfoldable pub register_library :
      ℕ → Bool → Option (List (Plugin D T) × Bool) → PluginFactory D T → Option (PluginFactory D T)
  unfolding enter_library
  register_library h true (some (ps, ok)) f =
      enter_library h ok (last_of (f.plugins ++ ps)) (record f { plugins = f.plugins ++ ps })
  register_library h true none f = some f
  register_library h false r f = some f

  -- One round of the loop of `load`; a library that is not entered is closed again. `h` is its handle.
  unfoldable pub load_library : ℕ → ℕ → Library D T → PluginFactory D T → Option (PluginFactory D T)
  unfolding register_library
  load_library version h l f =
      if l.opens then register_library h (matches version l.version) l.registration f else some f

  -- `load` of the libraries that `searchDirectory` finds, each with its handle.
  unfoldable pub load : ℕ → List (ℕ × Library D T) → PluginFactory D T → Option (PluginFactory D T)
  unfolding load_library
  load version [] f = some f
  load version (l ∷ ls) f = elim (load_library version l.0 l.1 f) [
    | none ↦ none
    | some g ↦ load version ls g
  ]

  -- `getDescriptions`, with an empty line between two of them.
  abbrev pub describe : List ℕ → List (Plugin D T) → List ℕ
  describe text [] = text
  describe text (p ∷ ps) =
      describe (text ++ ((if length text == 0 then [] else b'\n' ∷ b'\n' ∷ []) ++ p.description)) ps

  unfoldable pub get_descriptions : PluginFactory D T → List ℕ
  get_descriptions f = describe [] f.plugins
