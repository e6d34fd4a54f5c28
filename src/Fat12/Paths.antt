-- ===== src/Fat12/Paths.antt =====
-- The current directory in src/drivers/fat12.c. A path and a name are the characters before the 0.
use iron_kernel.Prelude.{
  ℕ, zero, suc, ◌+◌, ◌-◌, Bool, ◌&&◌, ◌||◌, not, none, some, List, [], ◌∷◌, ◌++◌, ltb, leb, ◌==◌,
  if◌then◌else◌, update, length, take, get_or,
}
use iron_kernel.Fat12.Store.{Volume, Status, success, failure}
use iron_kernel.Fat12.Search.{named, to_upper, fat12_find_dir_entry, entry_name}
use iron_kernel.Fat12.Files.{blank_ext, is_directory, entry_cluster, mkdir_as}

-- `fat12_cwd_state_t`, and the four variables of the current directory.
pub record Cwd : Type 0 where
  pub cwd : List ℕ
  pub cluster : ℕ
  pub parent_stack : ℕ → ℕ
  pub depth : ℕ

pub record Dirs : Type 0 where
  pub here : Cwd
  pub prev : Cwd

abbrev pub cwd_max : ℕ
cwd_max = 64

abbrev pub cwd_stack_depth : ℕ
cwd_stack_depth = 8

-- The characters of a name up to one that ends it, in capitals and filled up with spaces.
unfoldable pub pad8 : (ends : ℕ → Bool) → List ℕ → ℕ → ℕ
unfolding to_upper
pad8 ends [] i = b' '
pad8 ends (c ∷ name) zero = if ends c then b' ' else to_upper c
pad8 ends (c ∷ name) (suc i) = let rest = pad8 ends name i in if ends c then b' ' else rest

abbrev pub ends_dir : ℕ → Bool
ends_dir c = c == b' '

abbrev pub ends_component : ℕ → Bool
ends_component c = c == b' ' || c == b'/'

unfoldable pub fat12_mkdir : (cwd_cluster : ℕ) → (name : List ℕ) → Volume → Status × Volume
unfolding pad8
fat12_mkdir cwd_cluster name v =
    if not v.fs.mounted then (failure, v) else mkdir_as cwd_cluster (pad8 ends_dir name) v

abbrev pub ends_at : List ℕ → ℕ → Bool
ends_at name i = get_or name i 0 == 0 || get_or name i 0 == b' '

-- `while (j > 0 && fat12_cwd[j] != '/') j--;`
unfoldable pub slash_before : (j : ℕ) → List ℕ → ℕ
slash_before zero path = 0
slash_before (suc j) path =
    let rest = slash_before j path in if get_or path (suc j) 0 == b'/' then suc j else rest

unfoldable pub trim : List ℕ → List ℕ
trim path = let j = slash_before (length path - 1) path in if j == 0 then b'/' ∷ [] else take j path

unfoldable pub go_up : Cwd → Cwd
go_up w =
    let parent = record w {
      cwd = trim w.cwd;
      cluster = w.parent_stack (w.depth - 1);
      depth = w.depth - 1;
    } in
    if w.depth == 0 then w else parent

unfoldable pub to_lower : ℕ → ℕ
to_lower c = if leb b'A' c && leb c b'Z' then c + 32 else c

-- The loop that appends the name, `n` characters from the `c`th on.
unfoldable pub append_name : (n c : ℕ) → (name : ℕ → ℕ) → (path : List ℕ) → List ℕ
unfolding to_lower
append_name zero c name path = path
append_name (suc n) c name path =
    let rest = append_name n (c + 1) name (path ++ (to_lower (name c) ∷ [])) in
    if not (name c == b' ') && ltb (length path) (cwd_max - 1) then rest else path

abbrev pub with_slash : List ℕ → List ℕ
with_slash path =
    if ltb 1 (length path) && ltb (length path) (cwd_max - 1) then path ++ (b'/' ∷ []) else path

unfoldable pub go_down : (name : ℕ → ℕ) → (first_cluster : ℕ) → Cwd → Cwd
unfolding append_name
go_down name first_cluster w =
    let room = ltb w.depth cwd_stack_depth in
    record {
      cwd = append_name 8 0 name (with_slash w.cwd);
      cluster = first_cluster;
      parent_stack = if room then update w.parent_stack w.depth w.cluster else w.parent_stack;
      depth = if room then w.depth + 1 else w.depth;
    }

unfoldable pub fat12_chdir_one : (name : List ℕ) → Volume → Cwd → Status × Cwd
fat12_chdir_one name v w =
    if get_or name 0 0 == b'.' && ends_at name 1
    then (success, w)
    else if get_or name 0 0 == b'.' && (get_or name 1 0 == b'.' && ends_at name 2)
    then (success, go_up w)
    else elim (fat12_find_dir_entry w.cluster (named (pad8 ends_component name) blank_ext) v) [
      | none ↦ (failure, w)
      | some (sector, i) ↦
          let b = v.disk sector in
          if not (v.readable sector)
          then (failure, w)
          else if not (is_directory b i)
          then (failure, w)
          else (success, go_down (entry_name b i) (entry_cluster b i) w)
    ]

-- The first component of a path, of at most `n` characters, and what stands behind it.
unfoldable pub component : (n : ℕ) → List ℕ → List ℕ × List ℕ
component zero p = ([], p)
component (suc n) [] = ([], [])
component (suc n) (c ∷ p) =
    let rest = component n p in if c == b'/' then ([], c ∷ p) else (c ∷ rest.0, rest.1)

abbrev pub skip_slash : List ℕ → List ℕ
skip_slash [] = []
skip_slash (c ∷ p) = if c == b'/' then p else c ∷ p

-- The loop over the components. A round takes a character at least, so `length p` rounds do.
unfoldable pub walk : (rounds : ℕ) → (p : List ℕ) → Volume → Cwd → Status × Cwd
unfolding component
walk zero p v w = (success, w)
walk (suc rounds) [] v w = (success, w)
walk (suc rounds) (c ∷ p) v w =
    let (name, behind) = component 8 (c ∷ p) in
    let (st, w1) = fat12_chdir_one name v w in
    let next = walk rounds (skip_slash behind) v w1 in
    let same = walk rounds (skip_slash behind) v w in
    if length name == 0 then same else elim st [ failure ↦ (failure, w1) | success ↦ next ]

-- The state that is kept for "cd -": the part of the stack that is in use.
unfoldable pub saved : Dirs → Cwd
saved d = record d.here {
  parent_stack = λ i.
      if ltb i d.here.depth && ltb i cwd_stack_depth
      then d.here.parent_stack i
      else d.prev.parent_stack i;
}

abbrev pub at_root : Cwd → Cwd
at_root w = record w { cwd = b'/' ∷ []; cluster = 0; depth = 0 }

unfoldable pub fat12_chdir : (name : List ℕ) → Volume → Dirs → Status × Dirs
fat12_chdir name v d =
    let prev = saved d in
    let kept : Dirs = record { here = d.here; prev = prev } in
    let (st, down) = walk (length name) name v d.here in
    let (st_root, from_root) = walk (length name) (skip_slash name) v (at_root d.here) in
    if not v.fs.mounted
    then (failure, d)
    else if get_or name 0 0 == b'-' && ends_at name 1
    then (success, record { here = prev; prev = d.here })
    else if ends_at name 0 || (get_or name 0 0 == b'/' && ends_at name 1)
    then (success, record kept { here = at_root d.here })
    else if get_or name 0 0 == b'/'
    then (st_root, record kept { here = from_root })
    else (st, record kept { here = down })

-- A snapshot of the four variables, with all places of the stack.
unfoldable pub fat12_save_cwd : Dirs → Cwd
fat12_save_cwd d = d.here

unfoldable pub fat12_restore_cwd : (snapshot : Cwd) → Dirs → Dirs
fat12_restore_cwd snapshot d = record d { here = snapshot }
