-- ===== src/Fat12/UpDown.antt =====
-- Going down into a directory and up again: `fat12_chdir_one` of src/drivers/fat12.c.
use iron_kernel.Prelude.{
  ℕ, zero, suc, ◌+◌, ◌-◌, ◌≤◌, ◌<◌, ◌≡◌, refl, sym, ap, ap₂, ◌∙◌, ◌≢◌, inl, inr, arith, true, false,
  not, ◌&&◌, List, [], ◌∷◌, ◌++◌, append_assoc, append-nil, ltb, ◌==◌, ==_iff, ==_ne, if_true,
  if_false, if◌then◌else◌, Bool-cases, length, length-append, get_or, take, update, update_same,
  lt→ltb, subst, All, update_ne,
}
use iron_kernel.Fat12.Paths.{
  Cwd, cwd_max, cwd_stack_depth, slash_before, trim, go_up, go_down, to_lower, append_name,
  with_slash,
}

-- A path as the code builds it: the root, or a text of two characters or more.
pub data IsPath : List ℕ → Type 0 where
  root : IsPath (b'/' ∷ [])
  below : {p : List ℕ} → 1 < length p → IsPath p

get_or-append_right : (p q : List ℕ) (i : ℕ) → get_or (p ++ q) (length p + i) 0 ≡ get_or q i 0
get_or-append_right [] q i = ap (λ k. get_or q k 0) (omega arith)
get_or-append_right (x ∷ p) q i =
    let e : suc (length p) + i ≡ suc (length p + i) = omega arith in
    ap (λ k. get_or (x ∷ (p ++ q)) k 0) e ∙ get_or-append_right p q i

take-append : (p q : List ℕ) → take (length p) (p ++ q) ≡ p
take-append [] q = refl
take-append (x ∷ p) q = ap (λ l. x ∷ l) (take-append p q)

abbrev NoSlash : List ℕ → Type 0
NoSlash n = All (λ c. c ≢ b'/') n

NoSlash-at : (n : List ℕ) (i : ℕ) → NoSlash n → get_or n i 0 ≢ b'/'
NoSlash-at [] i h = λ e. absurd (omega arith)
NoSlash-at (c ∷ n) zero h = h.0
NoSlash-at (c ∷ n) (suc i) h = NoSlash-at n i h.1

-- The search for the last slash comes to the one before the name.
slash_found :
    (p n : List ℕ) (i : ℕ) → NoSlash n → slash_before (length p + i) (p ++ (b'/' ∷ n)) ≡ length p
unfolding slash_before
slash_found [] n zero h = refl
slash_found [] n (suc i) h =
    let e : 0 + suc i ≡ suc i = omega arith in
    let f : i ≡ 0 + i = omega arith in
    ap (λ k. slash_before k (b'/' ∷ n)) e
    ∙ (if_false _ _ _ (==_ne (get_or n i 0) b'/' (NoSlash-at n i h))
        ∙ (ap (λ k. slash_before k (b'/' ∷ n)) f ∙ slash_found [] n i h))
slash_found (x ∷ p) n zero h =
    let e : suc (length p) + 0 ≡ suc (length p) = omega arith in
    let path = x ∷ (p ++ (b'/' ∷ n)) in
    let g : length p ≡ length p + 0 = omega arith in
    let at : get_or path (suc (length p)) 0 ≡ b'/' =
      ap (λ k. get_or (p ++ (b'/' ∷ n)) k 0) g ∙ get_or-append_right p (b'/' ∷ n) 0 in
    ap (λ k. slash_before k path) e ∙ if_true _ _ _ ((==_iff _ b'/').1 at)
slash_found (x ∷ p) n (suc i) h =
    let e : suc (length p) + suc i ≡ suc (suc (length p) + i) = omega arith in
    let path = x ∷ (p ++ (b'/' ∷ n)) in
    let at : get_or path (suc (suc (length p) + i)) 0 ≡ get_or n i 0 =
      ap (λ k. get_or path k 0) (sym e) ∙ get_or-append_right (x ∷ p) (b'/' ∷ n) (suc i) in
    ap (λ k. slash_before k path) e
    ∙ (if_false _ _ _ (==_ne _ b'/' (λ q. NoSlash-at n i h (sym at ∙ q)))
        ∙ slash_found (x ∷ p) n i h)

trim-append :
    (p n : List ℕ) → NoSlash n → trim (p ++ (b'/' ∷ n)) ≡ (if length p == 0 then b'/' ∷ [] else p)
unfolding trim
trim-append p n h =
    let path = p ++ (b'/' ∷ n) in
    let e : length path - 1 ≡ length p + length n = omega (arith, length-append p (b'/' ∷ n)) in
    let found = ap (λ k. slash_before k path) e ∙ slash_found p n (length n) h in
    ap (λ j. if j == 0 then b'/' ∷ [] else take j path) found
    ∙ ap (λ l. if length p == 0 then b'/' ∷ [] else l) (take-append p (b'/' ∷ n))

-- The characters of a name that the path shows, `n` of them from the `c`th on.
shown : (n c : ℕ) → (ℕ → ℕ) → List ℕ
shown zero c name = []
shown (suc n) c name =
    let rest = shown n (c + 1) name in if name c == b' ' then [] else to_lower (name c) ∷ rest

append_name-shown :
    (n c : ℕ) (name : ℕ → ℕ) (path : List ℕ)
    → length path + n < cwd_max
    → append_name n c name path ≡ path ++ shown n c name
unfolding append_name shown
append_name-shown zero c name path h = sym (append-nil path)
append_name-shown (suc n) c name path h = elim (Bool-cases (name c == b' ')) [
  | inl e ↦
      if_false (not (name c == b' ') && ltb (length path) (cwd_max - 1)) _ _
        (ap (λ b. not b && ltb (length path) (cwd_max - 1)) e)
      ∙ (sym (append-nil path) ∙ ap (λ l. path ++ l) (sym (if_true _ _ _ e)))
  | inr e ↦
      let room : ltb (length path) (cwd_max - 1) ≡ true = lt→ltb _ _ (omega arith) in
      let longer = path ++ (to_lower (name c) ∷ []) in
      if_true (not (name c == b' ') && ltb (length path) (cwd_max - 1)) _ _
        (ap₂ (λ b d. not b && d) e room)
      ∙ (append_name-shown n (c + 1) name longer
            (omega (arith, length-append path (to_lower (name c) ∷ [])))
          ∙ (append_assoc path (to_lower (name c) ∷ []) (shown n (c + 1) name)
              ∙ ap (λ l. path ++ l) (sym (if_false _ _ _ e))))
]

to_lower-slash : (c : ℕ) → c ≢ b'/' → to_lower c ≢ b'/'
unfolding to_lower
to_lower-slash c h e = ground arith

shown-NoSlash :
    (n c : ℕ) (name : ℕ → ℕ)
    → ((i : ℕ) → c ≤ i → i < c + n → name i ≢ b'/')
    → NoSlash (shown n c name)
unfolding shown
shown-NoSlash zero c name h = tt
shown-NoSlash (suc n) c name h = elim (Bool-cases (name c == b' ')) [
  | inl e ↦ subst NoSlash (sym (if_true _ _ _ e)) tt
  | inr e ↦ subst NoSlash (sym (if_false _ _ _ e)) (
    to_lower-slash (name c) (h c (omega arith) (omega arith)),
    shown-NoSlash n (c + 1) name (λ i l m. h i (omega arith) (omega arith)),
  )
]

-- The path of a directory below, without its last component.
trim-down :
    (path : List ℕ) (name : ℕ → ℕ)
    → IsPath path
    → length path + 9 < cwd_max
    → ((i : ℕ) → i < 8 → name i ≢ b'/')
    → trim (append_name 8 0 name (with_slash path)) ≡ path
trim-down _ name root h ns =
    ap trim (append_name-shown 8 0 name (b'/' ∷ []) (omega arith))
    ∙ trim-append [] (shown 8 0 name) (shown-NoSlash 8 0 name (λ i _ l. ns i (omega arith)))
trim-down path name (below two) h ns =
    let slash : with_slash path ≡ path ++ (b'/' ∷ []) =
      if_true (ltb 1 (length path) && ltb (length path) (cwd_max - 1)) _ _ (ground arith) in
    let longer = path ++ (b'/' ∷ []) in
    ap (λ p. trim (append_name 8 0 name p)) slash
    ∙ (ap trim (append_name-shown 8 0 name longer (omega (arith, length-append path (b'/' ∷ []))))
        ∙ (ap trim (append_assoc path (b'/' ∷ []) (shown 8 0 name))
            ∙ (trim-append path (shown 8 0 name)
                  (shown-NoSlash 8 0 name (λ i _ l. ns i (omega arith)))
                ∙ if_false _ _ _ (==_ne (length path) 0 (omega arith)))))

module _ (name : ℕ → ℕ) (first : ℕ) (w : Cwd) where
  -- Going down to a directory and up again gives the path back, and the cluster too while the stack
  -- of parents has room. In a directory of the eighth level the parent is not kept: the way up leads
  -- to the cluster of the level before, although the path names the directory.
  pub go_up-go_down :
      IsPath w.cwd
      → length w.cwd + 9 < cwd_max
      → ((i : ℕ) → i < 8 → name i ≢ b'/')
      → w.depth ≤ cwd_stack_depth
      → ((go_up (go_down name first w)).cwd ≡ w.cwd)
        × ((go_up (go_down name first w)).cluster
            ≡ (if ltb w.depth cwd_stack_depth then w.cluster else w.parent_stack 7))
        × ((go_up (go_down name first w)).depth
            ≡ (if ltb w.depth cwd_stack_depth then w.depth else 7))
        × ((i : ℕ) → i < w.depth → (go_up (go_down name first w)).parent_stack i ≡ w.parent_stack i)
  unfolding go_up go_down
  go_up-go_down p l ns d = elim (Bool-cases (ltb w.depth cwd_stack_depth)) [
    | inl e ↦
        let down = go_down name first w in
        let deep : (w.depth + 1 == 0) ≡ false = ==_ne _ 0 (omega arith) in
        let back : w.depth + 1 - 1 ≡ w.depth = omega arith in
        rw (e, deep)
          (
            trim-down w.cwd name p l ns,
            ap (update w.parent_stack w.depth w.cluster) back
                ∙ update_same w.parent_stack w.depth w.cluster,
            back,
            λ i h. update_ne w.parent_stack w.depth i w.cluster (omega arith),
          )
    | inr e ↦
        let full : w.depth ≡ 8 = ground arith in
        let deep : (w.depth == 0) ≡ false = ==_ne _ 0 (omega arith) in
        rw (e, deep)
          (trim-down w.cwd name p l ns, ap w.parent_stack (omega arith), omega arith, λ i h. refl)
  ]
