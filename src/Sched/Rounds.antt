-- ===== src/Sched/Rounds.antt =====
-- One turn of `sched_tick` in src/kernel/sched.c: which task it picks, and what it does to the
-- states of all of them.
use iron_kernel.Prelude.{
  ℕ, zero, suc, ◌+◌, ◌%◌, ◌≤◌, ◌<◌, ◌≡◌, ◌∙◌, refl, sym, ap, subst, ◌≢◌, inl, inr, Bool, true,
  false, not, arith, ◌==◌, ==_iff, ==_refl, Bool-cases, if_true, if_false, if◌then◌else◌, update,
}
use native.Mathlib.Nat.{mod-lt}
use iron_kernel.Sched.{
  TaskState, task_ready, task_running, task_dead, task_zombie, Task, Sched, is_runnable, is_running,
  search, next_task, count_tick, hand_over, switch, sched_tick,
}

module _ (tasks : ℕ → Task) (task_count current : ℕ) where
  -- the state of the task `e` places behind the current one, in a circle
  abbrev pub runs : ℕ → Bool
  runs e = is_runnable (tasks ((current + e) % task_count)).state

  -- What the search finds: the first runnable task in the circle, or none of them runs.
  pub data Choice (n i : ℕ) : ℕ → Type 0 where
    chosen :
        (e : ℕ)
        → i ≤ e
        → e < i + n
        → runs e ≡ true
        → ((k : ℕ) → i ≤ k → k < e → runs k ≡ false)
        → Choice n i ((current + e) % task_count)
    idle : ((k : ℕ) → i ≤ k → k < i + n → runs k ≡ false) → Choice n i current

  later_Choice : (n i next : ℕ) → runs i ≡ false → Choice n (i + 1) next → Choice (suc n) i next
  later_Choice n i _ h (chosen e a b r others) = chosen e (omega arith) (omega arith) r go
    where
      go : (k : ℕ) → i ≤ k → k < e → runs k ≡ false
      go k l m = elim (Bool-cases (i == k)) [
        | inl p ↦ subst (λ j. runs j ≡ false) ((==_iff i k).0 p) h
        | inr p ↦ let ne : i ≢ k = λ q. cc (p, (==_iff i k).1 q) in others k (omega arith) m
      ]
  later_Choice n i _ h (idle others) = idle go
    where
      go : (k : ℕ) → i ≤ k → k < i + suc n → runs k ≡ false
      go k l m = elim (Bool-cases (i == k)) [
        | inl p ↦ subst (λ j. runs j ≡ false) ((==_iff i k).0 p) h
        | inr p ↦
            let ne : i ≢ k = λ q. cc (p, (==_iff i k).1 q) in others k (omega arith) (omega arith)
      ]

  pub search-Choice : (n i : ℕ) → Choice n i (search tasks task_count current n i)
  unfolding search
  search-Choice zero i = idle λ k l m. absurd (omega arith)
  search-Choice (suc n) i = elim (Bool-cases (runs i)) [
    | inl r ↦ rw r (chosen i (omega arith) (omega arith) r λ k l m. absurd (omega arith))
    | inr r ↦ rw r (later_Choice n i _ r (search-Choice n (i + 1)))
  ]

-- A write that keeps the state of the task it changes keeps them all.
update-state :
    (tasks : ℕ → Task) (i : ℕ) (t : Task) (j : ℕ)
    → t.state ≡ (tasks i).state
    → (update tasks i t j).state ≡ (tasks j).state
update-state tasks i t j h = elim (Bool-cases (j == i)) [
  | inl e ↦ rw e (h ∙ ap (λ k. (tasks k).state) (sym ((==_iff j i).0 e)))
  | inr e ↦ rw e refl
]

running_runnable : (t : TaskState) → is_running t ≡ true → is_runnable t ≡ true
unfolding is_runnable
running_runnable task_ready h = refl
running_runnable task_running h = refl
running_runnable task_dead h = cc h
running_runnable task_zombie h = cc h

search_states :
    (a b : ℕ → Task) (count current n i : ℕ)
    → ((k : ℕ) → (a k).state ≡ (b k).state)
    → search a count current n i ≡ search b count current n i
unfolding search
search_states a b count current zero i h = refl
search_states a b count current (suc n) i h =
    rw (h ((current + i) % count), search_states a b count current n (i + 1) h) refl

module _ {M : Type 0} where
  pub record IsValid (s : Sched M) : Type 0 where
    pub current_in : s.current_task < s.task_count
    pub alone : (i : ℕ) → is_running (s.tasks i).state ≡ true → i ≡ s.current_task

  -- The states of all tasks are the same.
  abbrev SameStates : Sched M → Sched M → Type 0
  SameStates s s' = (i : ℕ) → (s'.tasks i).state ≡ (s.tasks i).state

  count_tick-SameStates : (s : Sched M) → SameStates s (count_tick s)
  unfolding count_tick
  count_tick-SameStates s i = update-state s.tasks s.current_task _ i refl

  switch-SameStates : (cr3 saved next : ℕ) (s : Sched M) → SameStates s (switch cr3 saved next s)
  unfolding switch
  switch-SameStates cr3 saved next s i = update-state s.tasks s.current_task _ i refl

  -- the task that stops
  abbrev stopped : Sched M → ℕ → Task
  stopped s =
      let t = s.tasks s.current_task in
      if is_running t.state
      then update s.tasks s.current_task (record t { state = task_ready })
      else s.tasks

  stopped-runnable :
      (s : Sched M) (i : ℕ) → is_runnable (stopped s i).state ≡ is_runnable (s.tasks i).state
  unfolding is_runnable
  stopped-runnable s i = elim (Bool-cases (is_running (s.tasks s.current_task).state)) [
    | inr r ↦ rw r refl
    | inl r ↦ elim (Bool-cases (i == s.current_task)) [
      | inr e ↦ rw (r, e) refl
      | inl e ↦
          rw (r, e)
            (sym
              (ap (λ k. is_runnable (s.tasks k).state) ((==_iff i _).0 e) ∙ running_runnable _ r))
    ]
  ]

  not_current :
      (s : Sched M)
      → IsValid s
      → (i : ℕ) → (i == s.current_task) ≡ false
      → is_running (s.tasks i).state ≡ false
  not_current s v i e = elim (Bool-cases (is_running (s.tasks i).state)) [
    | inl r ↦ cc (e, (==_iff i s.current_task).1 (v.alone i r))
    | inr r ↦ r
  ]

  stopped-running : (s : Sched M) → IsValid s → (i : ℕ) → is_running (stopped s i).state ≡ false
  stopped-running s v i = elim (Bool-cases (is_running (s.tasks s.current_task).state)) [
    | inl r ↦ elim (Bool-cases (i == s.current_task)) [
      | inl e ↦ rw (r, e) refl
      | inr e ↦ rw (r, e) (not_current s v i e)
    ]
    | inr r ↦ rw r (elim (Bool-cases (i == s.current_task)) [
      | inl e ↦ ap (λ k. is_running (s.tasks k).state) ((==_iff i _).0 e) ∙ r
      | inr e ↦ not_current s v i e
    ])
  ]

  hand_over-runnable :
      (next : ℕ) (s : Sched M) (i : ℕ)
      → is_runnable (s.tasks next).state ≡ true
      → is_runnable ((hand_over next s).tasks i).state ≡ is_runnable (s.tasks i).state
  unfolding hand_over is_runnable
  hand_over-runnable next s i h = elim (Bool-cases (i == next)) [
    | inl e ↦ rw e (sym (ap (λ k. is_runnable (s.tasks k).state) ((==_iff i next).0 e) ∙ h))
    | inr e ↦ rw e (stopped-runnable s i)
  ]

  hand_over-running :
      (next : ℕ) (s : Sched M) (i : ℕ)
      → IsValid s
      → is_running ((hand_over next s).tasks i).state ≡ (i == next)
  unfolding hand_over
  hand_over-running next s i v = elim (Bool-cases (i == next)) [
    | inl e ↦ rw e refl
    | inr e ↦ rw e (stopped-running s v i)
  ]

  -- What one turn of a scheduler that is not locked does.
  pub record Turn (s s' : Sched M) : Type 0 where
    pub picked : Choice s.tasks s.task_count s.current_task s.task_count 1 s'.current_task
    pub valid : IsValid s'
    pub runnable : (i : ℕ) → is_runnable (s'.tasks i).state ≡ is_runnable (s.tasks i).state
    pub counted : s'.task_count ≡ s.task_count
    pub unlocked : s'.sched_ready ≡ true
    pub runs_now :
        s'.current_task ≢ s.current_task → (s'.tasks s'.current_task).state ≡ task_running

  next_task-count_tick : (s : Sched M) → next_task (count_tick s) ≡ next_task s
  unfolding next_task count_tick
  next_task-count_tick s =
      search_states (count_tick s).tasks s.tasks s.task_count s.current_task s.task_count 1
        (count_tick-SameStates s)

  picks : (s : Sched M) → Choice s.tasks s.task_count s.current_task s.task_count 1 (next_task s)
  unfolding next_task
  picks s = search-Choice s.tasks s.task_count s.current_task s.task_count 1

  next_in : (s : Sched M) → s.current_task < s.task_count → next_task s < s.task_count
  next_in s h = go (next_task s) (picks s)
    where
      go : (n : ℕ) → Choice s.tasks s.task_count s.current_task s.task_count 1 n → n < s.task_count
      go _ (chosen e a b r others) = mod-lt (s.current_task + e) (omega arith)
      go _ (idle others) = h

  tick_stay :
      (cr3 saved : ℕ) (s : Sched M)
      → s.sched_ready ≡ true
      → (next_task (count_tick s) == s.current_task) ≡ true
      → sched_tick cr3 saved s ≡ count_tick s
  unfolding sched_tick
  tick_stay cr3 saved s ready stay =
      if_false (not s.sched_ready) _ _ (ap not ready) ∙ if_true _ _ _ stay

  moved : (cr3 saved : ℕ) → Sched M → Sched M
  moved cr3 saved s =
      switch cr3 saved (next_task (count_tick s))
        (hand_over (next_task (count_tick s)) (count_tick s))

  tick_move :
      (cr3 saved : ℕ) (s : Sched M)
      → s.sched_ready ≡ true
      → (next_task (count_tick s) == s.current_task) ≡ false
      → sched_tick cr3 saved s ≡ moved cr3 saved s
  unfolding sched_tick moved
  tick_move cr3 saved s ready move =
      if_false (not s.sched_ready) _ _ (ap not ready) ∙ if_false _ _ _ move

  count_tick-IsValid : (s : Sched M) → IsValid s → IsValid (count_tick s)
  count_tick-IsValid s v = record {
    current_in = unfold count_tick in v.current_in;
    alone =
        λ i h. unfold count_tick in v.alone i (ap is_running (sym (count_tick-SameStates s i)) ∙ h);
  }

  stay-Turn :
      (s : Sched M)
      → IsValid s
      → s.sched_ready ≡ true
      → (next_task (count_tick s) == s.current_task) ≡ true
      → Turn s (count_tick s)
  unfolding count_tick
  stay-Turn s v ready stay = record {
    picked =
        subst (λ n. Choice s.tasks s.task_count s.current_task s.task_count 1 n)
          (sym (next_task-count_tick s) ∙ (==_iff _ _).0 stay) (picks s);
    valid = count_tick-IsValid s v;
    runnable = λ i. ap is_runnable (count_tick-SameStates s i);
    counted = refl;
    unlocked = ready;
    runs_now = λ ne. absurd (ne refl);
  }

  hand_over_next : (n : ℕ) (s : Sched M) → ((hand_over n s).tasks n).state ≡ task_running
  unfolding hand_over
  hand_over_next n s = rw (==_refl n) refl

  next_runs :
      (s : Sched M)
      → next_task (count_tick s) ≢ s.current_task
      → is_runnable ((count_tick s).tasks (next_task (count_tick s))).state ≡ true
  unfolding count_tick
  next_runs s ne = go (next_task (count_tick s)) ne (picks (count_tick s))
    where
      go :
          (n : ℕ)
          → n ≢ s.current_task
          → Choice (count_tick s).tasks s.task_count s.current_task s.task_count 1 n
          → is_runnable ((count_tick s).tasks n).state ≡ true
      go _ ne (chosen e a b r others) = r
      go _ ne (idle others) = absurd (ne refl)

  moved-Turn :
      (cr3 saved : ℕ) (s : Sched M)
      → IsValid s
      → s.sched_ready ≡ true
      → (next_task (count_tick s) == s.current_task) ≡ false
      → Turn s (moved cr3 saved s)
  unfolding moved switch hand_over count_tick
  moved-Turn cr3 saved s v ready move =
      let n = next_task (count_tick s) in
      let c = count_tick s in
      let w = count_tick-IsValid s v in
      let same = switch-SameStates cr3 saved n (hand_over n c) in
      let ne : n ≢ s.current_task = λ e. cc (move, (==_iff _ _).1 e) in
      record {
        picked =
            subst (λ n. Choice s.tasks s.task_count s.current_task s.task_count 1 n)
              (sym (next_task-count_tick s)) (picks s);
        valid = record {
          current_in =
              subst (λ n. n < s.task_count) (sym (next_task-count_tick s)) (next_in s v.current_in);
          alone = λ i h.
              (==_iff i n).0 (sym (hand_over-running n c i w) ∙ (ap is_running (sym (same i)) ∙ h));
        };
        runnable = λ i.
            ap is_runnable (same i)
            ∙ hand_over-runnable n c i (next_runs s ne)
            ∙ ap is_runnable (count_tick-SameStates s i);
        counted = refl;
        unlocked = ready;
        runs_now = λ _. same n ∙ hand_over_next n c;
      }

  -- Take a scheduler that is not locked, with at most the current task marked as running. After one
  -- turn the current task is the first one that can run in the circle behind the old one, or the
  -- old one if none can; it alone may be marked as running, and is if it is another one; every
  -- task can run exactly if it could before; and the number of tasks and the lock are unchanged.
  pub sched_tick-Turn :
      (cr3 saved : ℕ) (s : Sched M)
      → IsValid s
      → s.sched_ready ≡ true
      → Turn s (sched_tick cr3 saved s)
  sched_tick-Turn cr3 saved s v ready =
      elim (Bool-cases (next_task (count_tick s) == s.current_task)) [
        | inl stay ↦
            subst (λ s'. Turn s s') (sym (tick_stay cr3 saved s ready stay))
              (stay-Turn s v ready stay)
        | inr move ↦
            subst (λ s'. Turn s s') (sym (tick_move cr3 saved s ready move))
              (moved-Turn cr3 saved s v ready move)
      ]
