-- ===== src/Fat12/EnterDir.antt =====
-- Going into a directory that was made: `fat12_chdir` after `fat12_mkdir` of src/drivers/fat12.c.
use iron_kernel.Prelude.{
  ℕ, zero, suc, ◌≤◌, ◌≡◌, refl, sym, ap, ap₂, ◌∙◌, ◌≢◌, arith, Bool, true, not, ◌&&◌, ◌||◌, List,
  [], ◌∷◌, ◌==◌, ==_ne, if_false, if◌then◌else◌, get_or, length, All,
}
use iron_kernel.Fat12.Store.{Geometry, Volume, Status, success, failure}
use iron_kernel.Fat12.Files.{alloc}
use iron_kernel.Fat12.Paths.{
  Cwd, Dirs, pad8, ends_dir, ends_at, go_down, fat12_mkdir, fat12_chdir_one, component, skip_slash,
  walk, saved, fat12_chdir,
}
use iron_kernel.Fat12.Written.{IsCluster, next, alloc-free}
use iron_kernel.Fat12.Sound.{IsSound}
use iron_kernel.Fat12.MakeDir.{IsDirName, mkdir_as-MadeDir, prepared-Prepared, entry, goes_down}

component-all :
    (n : ℕ) (name : List ℕ)
    → length name ≤ n
    → All (λ c. (c ≢ 0) × (c ≢ b'/')) name
    → component n name ≡ (name, [])
unfolding component
component-all zero [] h all = refl
component-all zero (c ∷ name) h all = absurd (omega arith)
component-all (suc n) [] h all = refl
component-all (suc n) (c ∷ name) h all =
    if_false (c == b'/') _ _ (==_ne c b'/' all.0.1)
    ∙ ap (λ (r : List ℕ × List ℕ). let l : List ℕ × List ℕ = (c ∷ r.0, r.1) in l)
        (component-all n name (omega arith) all.1)

walk_end : (rounds : ℕ) (v : Volume) (d : Cwd) → walk rounds [] v d ≡ (success, d)
unfolding walk
walk_end zero v d = refl
walk_end (suc rounds) v d = refl

-- A path of one component is one step.
walk_one :
    (name : List ℕ) (v : Volume) (d d' : Cwd)
    → IsDirName name
    → fat12_chdir_one name v d ≡ (success, d')
    → walk (length name) name v d ≡ (success, d')
unfolding walk
walk_one [] v d d' good one = absurd (cc good.filled)
walk_one (c ∷ name) v d d' good one =
    let after = λ (r : List ℕ × List ℕ).
      let s = fat12_chdir_one r.0 v d in
      let next = walk (length name) (skip_slash r.1) v s.1 in
      let same = walk (length name) (skip_slash r.1) v d in
      let w : Status × Cwd =
        if length r.0 == 0 then same else elim s.0 [ failure ↦ (failure, s.1) | success ↦ next ] in
      w in
    let next = λ (s : Status × Cwd).
      let w : Status × Cwd = elim s.0 [
        | failure ↦ (failure, s.1)
        | success ↦ walk (length name) [] v s.1
      ] in
      w in
    ap after (component-all 8 (c ∷ name) good.short good.characters)
    ∙ (if_false (suc (length name) == 0) _ _ (==_ne (suc (length name)) 0 (omega arith))
        ∙ (ap next one ∙ walk_end (length name) v d'))

no_slash : (name : List ℕ) → IsDirName name → get_or name 0 0 ≢ b'/'
no_slash [] good = absurd (cc good.filled)
no_slash (c ∷ name) good = good.characters.0.1

-- `fat12_chdir` on such a name walks it from the current directory.
fat12_chdir-one :
    (name : List ℕ) (v : Volume) (d : Dirs)
    → v.fs.mounted ≡ true
    → IsDirName name
    → fat12_chdir name v d
      ≡ (let r = walk (length name) name v d.here in (r.0, record { here = r.1; prev = saved d }))
unfolding fat12_chdir
fat12_chdir-one name v d up good =
    let slash = ==_ne (get_or name 0 0) b'/' (no_slash name good) in
    if_false (not v.fs.mounted) _ _ (ap not up)
    ∙ (if_false (get_or name 0 0 == b'-' && ends_at name 1) _ _ good.no_dash
        ∙ (if_false (ends_at name 0 || (get_or name 0 0 == b'/' && ends_at name 1)) _ _
              (ap₂ (λ x y. x || (y && ends_at name 1)) good.filled slash)
            ∙ if_false (get_or name 0 0 == b'/') _ _ slash))

-- After a mkdir that succeeds in the root directory of a sound volume, cd with the same name from the root
-- directory enters the new directory: its cluster is one of the data clusters, not the root's 0, and
-- its entry in the table was 0, that of a free cluster. The name has 1 to 8 characters, none of them
-- `/`, starts with no space, `.` or byte 0xE5, and is not `-`.
pub fat12_chdir-fat12_mkdir :
    (name : List ℕ) (v w : Volume) (d : Dirs)
    → IsSound v
    → IsDirName name
    → d.here.cluster ≡ 0
    → fat12_mkdir 0 name v ≡ (success, w)
    → ((fat12_chdir name w d).0 ≡ success)
      × ((fat12_chdir name w d).1.here.cluster ≡ alloc v)
      × IsCluster (alloc v)
      × (next v (alloc v) ≡ 0)
unfolding fat12_mkdir go_down
fat12_chdir-fat12_mkdir name v w d sound good at_top h =
    let made = sym (if_false (not v.fs.mounted) _ _ (ap not sound.is_mounted)) ∙ h in
    let m = mkdir_as-MadeDir (pad8 ends_dir name) v w sound made in
    let (i, free) = alloc-free v sound.fits m.some_left in
    let p = prepared-Prepared v sound i in
    let e = entry name v w d.here sound good at_top m in
    let readable = ap (λ (t : ℕ → Bool). t m.sector) (e.only.same_readable ∙ p.same_readable) in
    let down = goes_down name v w d.here sound good at_top m (readable ∙ sound.reads m.sector) in
    let up = ap (λ (fs : Geometry). fs.mounted) (e.only.same_fs ∙ p.same_fs) ∙ sound.is_mounted in
    let gone =
      fat12_chdir-one name w d up good
      ∙ ap
          (λ (r : Status × Cwd).
            let x : Status × Dirs = (r.0, record { here = r.1; prev = saved d }) in x)
          (walk_one name w d.here _ good down) in
    (ap (λ r. r.0) gone, ap (λ r. r.1.here.cluster) gone ∙ e.cluster, i, free)
