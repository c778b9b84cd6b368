-- ===== src/MemoryMap/Tidy.antt =====
-- As long as files can be resized, an object holds one file and one mapping, or nothing.
use lunchbox.Prelude.{
  ℕ, ◌≡◌, refl, sym, ap, ◌∙◌, ap₂, subst, ◌⊎◌, inl, inr, Bool, true, false, not, ◌&&◌, ◌||◌, List,
  [], ◌∷◌, Option, none, some, ltb, ◌==◌, bind-eq_some, Bool-cases, some-eq, ==-refl,
}
use lunchbox.MemoryMap.{
  Os, Answers, Held, Call, close_file, unmap_memory, new_map, map_memory, map_file, open_file,
  init_at, init, unmap_at, unmap, resize_at, resize, map_whole, remap, create, recreate, call,
  calls,
}

-- The object holds nothing, or it has its file open and its memory mapped, and nothing else.
abbrev pub HoldsAt : Option ℕ → Option ℕ → ℕ → Os → Type 0
HoldsAt none fd n os = (os.files ≡ []) × (os.mappings ≡ [])
HoldsAt (some p) none n os = ⊥
HoldsAt (some p) (some f) n os = (os.files ≡ f ∷ []) × (os.mappings ≡ (p, n) ∷ [])

abbrev pub IsTidy : Held → Type 0
IsTidy h = HoldsAt h.map.ptr h.map.map_fd h.map.size h.os

-- A call that resizes no file, or that can.
abbrev pub CanResize : Call → Type 0
CanResize (Call.maps a) = Unit {0}
CanResize (Call.remaps a) = Unit {0}
CanResize (Call.creates a n) = a.truncated ≡ true
CanResize (Call.recreates a n) = a.truncated ≡ true
CanResize (Call.resizes a n) = (n ≡ 0) ⊎ (a.truncated ≡ true)
CanResize Call.unmaps = Unit {0}

-- A file that is open for the object, and no memory that is mapped.
abbrev Opened : Held → Type 0
Opened h = (f : ℕ) × (h.map.map_fd ≡ some f) × (h.os.files ≡ f ∷ []) × (h.os.mappings ≡ [])

map_memory-IsTidy :
    (mapped : Option ℕ) (n : ℕ) (h : Held) → Opened h → IsTidy (map_memory mapped n h).0
unfolding map_memory
map_memory-IsTidy none n h (f, fd, files, maps) = (rw (fd, files, ==-refl f) refl, maps)
map_memory-IsTidy (some p) n h (f, fd, files, maps) = rw (fd, files, maps) (refl, refl)

can_resize :
    (n : ℕ) (truncated : Bool) → (n ≡ 0) ⊎ (truncated ≡ true) → (ltb 0 n && not truncated) ≡ false
can_resize n truncated (inl e) = rw e refl
can_resize n truncated (inr e) = elim (Bool-cases (ltb 0 n)) [
  | inl t ↦ rw (t, e) refl
  | inr t ↦ rw t refl
]

HoldsAt-none :
    (ptr fd : Option ℕ) (n : ℕ) (os : Os)
    → HoldsAt ptr fd n os
    → ptr ≡ none
    → (os.files ≡ []) × (os.mappings ≡ [])
HoldsAt-none none fd n os v e = v
HoldsAt-none (some p) fd n os v e = cc

HoldsAt-some :
    (ptr fd : Option ℕ) (n : ℕ) (os : Os) (p : ℕ)
    → HoldsAt ptr fd n os
    → ptr ≡ some p
    → (f : ℕ) × (fd ≡ some f) × (os.files ≡ f ∷ []) × (os.mappings ≡ (p, n) ∷ [])
HoldsAt-some none fd n os p v e = cc
HoldsAt-some (some q) none n os p v e = absurd v
HoldsAt-some (some q) (some f) n os p v e =
    (f, refl, v.0, v.1 ∙ ap (λ k. (k, n) ∷ []) (some-eq q p e))

map_file-IsTidy :
    (a : Answers) (n : ℕ) (h : Held) (r : Held × Option ℕ)
    → (n ≡ 0) ⊎ (a.truncated ≡ true)
    → Opened h
    → map_file a n h ≡ some r
    → IsTidy r.0
unfolding map_file
map_file-IsTidy a n h r can o e =
    let whole : (ltb 0 n && not a.truncated) ≡ false = can_resize n a.truncated can in
    elim (Bool-cases (n == 0 || n == a.file_size)) [
      | inl t ↦
          let u : map_file a n h ≡ some (map_memory a.mapped a.file_size h) =
            rw (map_file, whole, t) refl in
          subst (λ q. IsTidy q.0) (some-eq _ r (sym u ∙ e))
            (map_memory-IsTidy a.mapped a.file_size h o)
      | inr t ↦ let u : map_file a n h ≡ none = rw (map_file, whole, t) refl in cc
    ]

open_file-IsTidy :
    (opened : Option ℕ) (a : Answers) (n : ℕ) (h : Held) (r : Held × Option ℕ)
    → (n ≡ 0) ⊎ (a.truncated ≡ true)
    → h.map.ptr ≡ none
    → (h.os.files ≡ []) × (h.os.mappings ≡ [])
    → open_file opened a n h ≡ some r
    → IsTidy r.0
unfolding open_file
open_file-IsTidy none a n h r can null o e =
    subst (λ q. IsTidy q.0) (some-eq _ r e)
      (subst (λ p. HoldsAt p none h.map.size h.os) (sym null) o)
open_file-IsTidy (some f) a n h r can null o e =
    map_file-IsTidy a n _ r can (f, refl, ap (λ fs. f ∷ fs) o.0, o.1) e

init_at-IsTidy :
    (ptr : Option ℕ) (a : Answers) (n : ℕ) (h : Held) (r : Held × Option ℕ)
    → (n ≡ 0) ⊎ (a.truncated ≡ true)
    → h.map.ptr ≡ ptr
    → IsTidy h
    → init_at ptr a n h ≡ some r
    → IsTidy r.0
unfolding init_at
init_at-IsTidy none a n h r can at v e =
    open_file-IsTidy a.opened a n h r can at
      (HoldsAt-none h.map.ptr h.map.map_fd h.map.size h.os v at) e
init_at-IsTidy (some p) a n h r can at v e = subst (λ q. IsTidy q.0) (some-eq (h, none) r e) v

init-IsTidy :
    (a : Answers) (n : ℕ) (h : Held) (r : Held × Option ℕ)
    → (n ≡ 0) ⊎ (a.truncated ≡ true)
    → IsTidy h
    → init a n h ≡ some r
    → IsTidy r.0
unfolding init
init-IsTidy a n h r can v e = init_at-IsTidy h.map.ptr a n h r can refl v e

-- `unmap` lets go of everything.
abbrev pub IsReleased : Held → Type 0
IsReleased h = (h.map.ptr ≡ none) × (h.os.files ≡ []) × (h.os.mappings ≡ [])

unmap_at-IsReleased :
    (ptr : Option ℕ) (h : Held) → h.map.ptr ≡ ptr → IsTidy h → IsReleased (unmap_at ptr h)
unfolding unmap_at new_map
unmap_at-IsReleased none h at v =
    let o = HoldsAt-none h.map.ptr h.map.map_fd h.map.size h.os v at in (at, o.0, o.1)
unmap_at-IsReleased (some p) h at v =
    let (f, fd, files, maps) = HoldsAt-some h.map.ptr h.map.map_fd h.map.size h.os p v at in
    (
      refl,
      ap₂ close_file fd files ∙ rw (==-refl f) refl,
      rw (maps, ==-refl p, ==-refl h.map.size) refl,
    )

pub unmap-IsReleased : (h : Held) → IsTidy h → IsReleased (unmap h)
unfolding unmap
unmap-IsReleased h v = unmap_at-IsReleased h.map.ptr h refl v

released-IsTidy : (h : Held) → IsReleased h → IsTidy h
released-IsTidy h (null, files, maps) =
    subst (λ p. HoldsAt p h.map.map_fd h.map.size h.os) (sym null) (files, maps)

resize_at-IsTidy :
    (ptr : Option ℕ) (a : Answers) (n : ℕ) (h : Held) (r : Held × Option ℕ)
    → (n ≡ 0) ⊎ (a.truncated ≡ true)
    → h.map.ptr ≡ ptr
    → IsTidy h
    → resize_at ptr a n h ≡ some r
    → IsTidy r.0
unfolding resize_at
resize_at-IsTidy none a n h r can at v e = subst (λ q. IsTidy q.0) (some-eq (h, none) r e) v
resize_at-IsTidy (some p) a n h r can at v e = elim (Bool-cases (h.map.size == n)) [
  | inl t ↦
      let u : resize_at (some p) a n h ≡ some (h, some p) = rw (resize_at, t) refl in
      subst (λ q. IsTidy q.0) (some-eq (h, some p) r (sym u ∙ e)) v
  | inr t ↦
      let (f, fd, files, maps) = HoldsAt-some h.map.ptr h.map.map_fd h.map.size h.os p v at in
      let h' : Held = record {
        map = h.map;
        os = record { files = h.os.files; mappings = unmap_memory p h.map.size h.os.mappings };
      } in
      let u : resize_at (some p) a n h ≡ map_file a n h' = rw (resize_at, t) refl in
      map_file-IsTidy a n h' r can (f, fd, files, rw (maps, ==-refl p, ==-refl h.map.size) refl)
        (sym u ∙ e)
]

create-IsTidy :
    (a : Answers) (n : ℕ) (h : Held) (r : Held × Option ℕ)
    → a.truncated ≡ true
    → IsTidy h
    → create a n h ≡ some r
    → IsTidy r.0
unfolding create
create-IsTidy a n h r can v e = elim (Bool-cases (n == 0)) [
  | inl t ↦ let u : create a n h ≡ none = rw (create, t) refl in cc
  | inr t ↦
      let u : create a n h ≡ init a n h = rw (create, t) refl in
      init-IsTidy a n h r (inr can) v (sym u ∙ e)
]

pub call-IsTidy :
    (c : Call) (h : Held) (r : Held × Option ℕ)
    → CanResize c
    → IsTidy h
    → call c h ≡ some r
    → IsTidy r.0
unfolding call map_whole remap recreate resize
call-IsTidy (Call.maps a) h r can v e = init-IsTidy a 0 h r (inl refl) v e
call-IsTidy (Call.remaps a) h r can v e =
    init-IsTidy a 0 (unmap h) r (inl refl) (released-IsTidy (unmap h) (unmap-IsReleased h v)) e
call-IsTidy (Call.creates a n) h r can v e = create-IsTidy a n h r can v e
call-IsTidy (Call.recreates a n) h r can v e =
    create-IsTidy a n (unmap h) r can (released-IsTidy (unmap h) (unmap-IsReleased h v)) e
call-IsTidy (Call.resizes a n) h r can v e = resize_at-IsTidy h.map.ptr a n h r can refl v e
call-IsTidy Call.unmaps h r can v e =
    subst (λ q. IsTidy q.0) (some-eq (unmap h, none) r e)
      (released-IsTidy (unmap h) (unmap-IsReleased h v))

abbrev pub CanResizeAll : List Call → Type 0
CanResizeAll [] = Unit {0}
CanResizeAll (c ∷ cs) = CanResize c × CanResizeAll cs

calls-IsTidy :
    (cs : List Call) (h h' : Held) → CanResizeAll cs → IsTidy h → calls cs h ≡ some h' → IsTidy h'
unfolding calls
calls-IsTidy [] h h' can v e = subst IsTidy (some-eq h h' e) v
calls-IsTidy (c ∷ cs) h h' can v e =
    let (r, first, rest) = bind-eq_some (call c h) (λ r. calls cs r.0) h' e in
    calls-IsTidy cs r.0 h' can.1 (call-IsTidy c h r can.0 v first) rest

abbrev pub nothing_held : Held
nothing_held = record {
  map = record { ptr = none; size = 0; map_fd = none };
  os = record { files = []; mappings = [] };
}

-- After any calls on a new object in which every `ftruncate` succeeds, whatever else the system answers:
-- the object has an address exactly if it holds one open file and one mapping of its size at that
-- address, and holds nothing otherwise. A last `unmap`, as in the destructor, lets go of everything.
pub calls_held :
    (cs : List Call) (h : Held)
    → CanResizeAll cs
    → calls cs nothing_held ≡ some h
    → IsTidy h × IsReleased (unmap h)
calls_held cs h can e =
    let v = calls-IsTidy cs nothing_held h can (refl, refl) e in (v, unmap-IsReleased h v)
