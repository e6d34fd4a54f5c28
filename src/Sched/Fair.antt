-- ===== src/Sched/Fair.antt =====
-- The rotation of `sched_tick` in src/kernel/sched.c leaves no task out.
use iron_kernel.Prelude.{
  ℕ, zero, suc, ◌+◌, ◌-◌, ◌%◌, ◌≤◌, ◌<◌, ◌≡◌, ◌∙◌, refl, sym, ap, ap₂, inl, inr, true, false, arith,
  ltb, ltb→lt, Bool-cases,
}
use native.Mathlib.Nat.{mod-add-mod, mod-eq_of_lt, add-mod_right}
use iron_kernel.Sched.{Task, Sched, is_runnable, sched_tick}
use iron_kernel.Sched.Rounds.{IsValid, Choice, chosen, idle, sched_tick-Turn}

-- The search stops at or before a place where a task is runnable.
near :
    (tasks : ℕ → Task) (count current d n : ℕ)
    → 1 ≤ d
    → d ≤ count
    → is_runnable (tasks ((current + d) % count)).state ≡ true
    → Choice tasks count current count 1 n
    → (e : ℕ) × (1 ≤ e) × (e ≤ d) × (n ≡ (current + e) % count)
near tasks count current d _ l m h (chosen e a b r others) = elim (Bool-cases (ltb d e)) [
  | inl far ↦ cc (h, others d l (ltb→lt d e far))
  | inr ok ↦ (e, a, ground arith, refl)
]
near tasks count current d _ l m h (idle others) = cc (h, others d l (omega arith))

module _ {M : Type 0} (cr3 : ℕ) where
  -- `k` turns; `saved i` is the stack pointer that the turn `i` stores.
  abbrev pub rounds : (saved : ℕ → ℕ) → (k : ℕ) → Sched M → Sched M
  rounds saved zero s = s
  rounds saved (suc k) s = rounds (λ i. saved (suc i)) k (sched_tick cr3 (saved 0) s)

  reached :
      (m d t : ℕ) (saved : ℕ → ℕ) (s : Sched M)
      → IsValid s
      → s.sched_ready ≡ true
      → is_runnable (s.tasks t).state ≡ true
      → d ≤ m
      → d ≤ s.task_count
      → (s.current_task + d) % s.task_count ≡ t
      → (k : ℕ) × (k ≤ d) × ((rounds saved k s).current_task ≡ t)
  reached m zero t saved s v ready run l l' e = (
    0,
    omega arith,
    sym (mod-eq_of_lt v.current_in) ∙ (ap (λ j. j % s.task_count) (omega arith) ∙ e),
  )
  reached zero (suc d) t saved s v ready run l l' e = absurd (omega arith)
  reached (suc m) (suc d) t saved s v ready run l l' at =
      let s' = sched_tick cr3 (saved 0) s in
      let turn = sched_tick-Turn cr3 (saved 0) s v ready in
      let (e, a, b, p) =
        near s.tasks s.task_count s.current_task (suc d) s'.current_task (omega arith) l'
          (rw at run) turn.picked in
      let c = turn.counted in
      let there : (s'.current_task + (suc d - e)) % s'.task_count ≡ t =
        ap₂ (λ i n. (i + (suc d - e)) % n) p c
        ∙ (mod-add-mod (s.current_task + e) s.task_count (suc d - e)
            ∙ (ap (λ j. j % s.task_count) (omega arith) ∙ at)) in
      let (k, f, g) =
        reached m (suc d - e) t (λ i. saved (suc i)) s' turn.valid turn.unlocked
          (turn.runnable t ∙ run) (omega arith) (omega arith) there in
      (suc k, omega arith, g)

  -- A task that can run is the current one after at most as many turns as there are tasks, while
  -- the scheduler is not locked and nothing else changes the states of the tasks.
  pub sched_tick_fair :
      (t : ℕ) (saved : ℕ → ℕ) (s : Sched M)
      → IsValid s
      → s.sched_ready ≡ true
      → t < s.task_count
      → is_runnable (s.tasks t).state ≡ true
      → (k : ℕ) × (k ≤ s.task_count) × ((rounds saved k s).current_task ≡ t)
  sched_tick_fair t saved s v ready l run = elim (Bool-cases (ltb t s.current_task)) [
    | inl e ↦
        let (k, a, b) =
          reached s.task_count (t + s.task_count - s.current_task) t saved s v ready run
            (below e v.current_in) (below e v.current_in)
            (ap (λ j. j % s.task_count) (around e v.current_in)
              ∙ (add-mod_right t s.task_count ∙ mod-eq_of_lt l)) in
        (k, omega (arith, below e v.current_in), b)
    | inr e ↦
        let (k, a, b) =
          reached s.task_count (t - s.current_task) t saved s v ready run (omega arith)
            (omega arith) (ap (λ j. j % s.task_count) (ahead e) ∙ mod-eq_of_lt l) in
        (k, omega arith, b)
  ]
    where
      below :
          ltb t s.current_task ≡ true
          → s.current_task < s.task_count
          → t + s.task_count - s.current_task ≤ s.task_count
      below e c = let h = ltb→lt t s.current_task e in omega arith

      around :
          ltb t s.current_task ≡ true
          → s.current_task < s.task_count
          → s.current_task + (t + s.task_count - s.current_task) ≡ t + s.task_count
      around e c = omega arith

      ahead : ltb t s.current_task ≡ false → s.current_task + (t - s.current_task) ≡ t
      ahead e = ground arith
