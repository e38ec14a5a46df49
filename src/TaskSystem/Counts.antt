-- ===== src/TaskSystem/Counts.antt =====
-- The counts of a task through every history of the scheduler and its workers.
use graphflowdb.Base.{
  ℕ, ◌+◌, ◌-◌, ◌≤◌, ◌<◌, ◌≡◌, ◌⊎◌, refl, true, List, [], ◌∷◌, Option, none, some, arith,
  if◌then◌else◌, ◌==◌, Bool-cases, inl, inr, ap, sym,
}
use graphflowdb.TaskSystem.{
  Task, new_task, is_set, has_exception, is_completed_successfully, register_thread,
  deregister_thread_and_finalize_task_if_necessary, set_exception, ScheduledTask, TaskScheduler,
  new_task_scheduler, update_task, schedule_task, register_loop, get_task_and_register,
  remove_erroring_task, error, wait_round,
}

-- The counts of a task on which `running` workers are.
pub record IsConsistent (t : Task) (running : ℕ) : Type 0 where
  pub counted :
      t.num_threads_finished + running ≡ t.num_threads_registered + t.num_failed_finalizations
  pub bounded : t.num_threads_registered ≤ t.max_num_threads
  pub finalized : t.num_finalized ≡ (
      if t.num_failed_finalizations == 0 then (if is_completed_successfully t then 1 else 0) else 1)
  pub failed_once : t.num_failed_finalizations ≤ 1
  pub failed_at_end :
      (t.num_failed_finalizations ≡ 0)
      ⊎ ((t.num_threads_registered ≤ t.num_threads_finished) × (1 ≤ t.num_threads_registered))
  pub failed : has_exception t ≡ true → 0 < t.num_threads_registered

new_task-IsConsistent : (n : ℕ) → IsConsistent (new_task n) 0
new_task-IsConsistent n = record {
  counted = refl;
  bounded = omega arith;
  finalized = refl;
  failed_once = omega arith;
  failed_at_end = inl refl;
  failed = λ h. ground arith;
}

register_thread-IsConsistent :
    (t : Task) (running : ℕ)
    → (register_thread t).0 ≡ true
    → IsConsistent t running
    → IsConsistent (register_thread t).1 (running + 1)
unfolding register_thread
register_thread-IsConsistent t running e c = record {
  counted = ground (arith, c.counted, c.bounded, c.finalized, c.failed_once, c.failed_at_end);
  bounded = ground (arith, c.counted, c.bounded, c.finalized, c.failed_once, c.failed_at_end);
  finalized = ground (arith, c.counted, c.bounded, c.finalized, c.failed_once, c.failed_at_end);
  failed_once = ground (arith, c.counted, c.bounded, c.finalized, c.failed_once, c.failed_at_end);
  failed_at_end = ground (arith, c.counted, c.bounded, c.finalized, c.failed_once, c.failed_at_end);
  failed = ground (arith, c.failed);
}

set_exception-IsConsistent :
    (t : Task) (running e : ℕ)
    → 0 < running
    → IsConsistent t running
    → IsConsistent (set_exception e t) running
unfolding set_exception
set_exception-IsConsistent t running e h c = record {
  counted = ground (arith, c.counted, c.bounded, c.finalized, c.failed_once, c.failed_at_end);
  bounded = ground (arith, c.counted, c.bounded, c.finalized, c.failed_once, c.failed_at_end);
  finalized = ground (arith, c.counted, c.bounded, c.finalized, c.failed_once, c.failed_at_end);
  failed_once = ground (arith, c.counted, c.bounded, c.finalized, c.failed_once, c.failed_at_end);
  failed_at_end = ground (arith, c.counted, c.bounded, c.finalized, c.failed_once, c.failed_at_end);
  failed = ground (arith, c.failed, c.counted);
}

deregister_thread-IsConsistent :
    (t : Task) (running : ℕ) (thrown : Option ℕ)
    → 0 < running
    → IsConsistent t running
    → let out = deregister_thread_and_finalize_task_if_necessary thrown t in
      IsConsistent out.1 (if is_set out.0 then running else running - 1)
unfolding deregister_thread_and_finalize_task_if_necessary
deregister_thread-IsConsistent t running thrown h c = record {
  counted = ground (arith, c.counted, c.bounded, c.finalized, c.failed_once, c.failed_at_end);
  bounded = ground (arith, c.counted, c.bounded, c.finalized, c.failed_once, c.failed_at_end);
  finalized = ground (arith, c.counted, c.bounded, c.finalized, c.failed_once, c.failed_at_end);
  failed_once = ground (arith, c.counted, c.bounded, c.finalized, c.failed_once, c.failed_at_end);
  failed_at_end = ground (arith, c.counted, c.bounded, c.finalized, c.failed_once, c.failed_at_end);
  failed = ground (arith, c.failed, c.counted);
}

-- A function on pointers after its value at `p` has changed.
abbrev pub at : ℕ → ℕ → (ℕ → ℕ) → ℕ → ℕ
at p n f q = if p == q then n else f q

-- The histories of calls, from tasks that are new, with the number of workers on each task. A worker
-- whose finalization throws stays on the task: it goes on as one whose run throws, and leaves again.
pub data Reach (max_num_threads : ℕ → ℕ) : TaskScheduler → (ℕ → ℕ) → Type 0 where
  starts : Reach max_num_threads (new_task_scheduler (λ p. new_task (max_num_threads p))) (λ p. 0)
  schedules :
      {s : TaskScheduler} {running : ℕ → ℕ} (p : ℕ)
      → Reach max_num_threads s running
      → Reach max_num_threads (schedule_task s p).1 running
  takes :
      {s : TaskScheduler} {running : ℕ → ℕ} (s' : TaskScheduler) (st : ScheduledTask)
      → Reach max_num_threads s running
      → get_task_and_register s ≡ (some st, s')
      → Reach max_num_threads s' (at st.task (running st.task + 1) running)
  finds_none :
      {s : TaskScheduler} {running : ℕ → ℕ} (s' : TaskScheduler)
      → Reach max_num_threads s running
      → get_task_and_register s ≡ (none, s')
      → Reach max_num_threads s' running
  throws :
      {s : TaskScheduler} {running : ℕ → ℕ} (p e : ℕ)
      → Reach max_num_threads s running
      → 0 < running p
      → Reach max_num_threads
          (record s { tasks = update_task p (set_exception e (s.tasks p)) s.tasks })
          running
  leaves :
      {s : TaskScheduler} {running : ℕ → ℕ} (p : ℕ) (thrown rethrown : Option ℕ) (t' : Task)
      → Reach max_num_threads s running
      → 0 < running p
      → deregister_thread_and_finalize_task_if_necessary thrown (s.tasks p) ≡ (rethrown, t')
      → Reach max_num_threads
          (record s { tasks = update_task p t' s.tasks })
          (at p (if is_set rethrown then running p else running p - 1) running)
  waits :
      {s : TaskScheduler} {running : ℕ → ℕ} (e : ℕ) (q : List ScheduledTask)
      → Reach max_num_threads s running
      → wait_round s ≡ error e q
      → Reach max_num_threads (record s { task_queue = q }) running
  removes :
      {s : TaskScheduler} {running : ℕ → ℕ} (id : ℕ)
      → Reach max_num_threads s running
      → Reach max_num_threads (remove_erroring_task s id) running

-- The loop registers one worker at the task that it returns, and changes no other task.
register_loop-some :
    (tasks : ℕ → Task) (q : List ScheduledTask) (st : ScheduledTask)
    → (register_loop tasks q).scheduled ≡ some st
    → ((register_thread (tasks st.task)).0 ≡ true)
      × ((register_loop tasks q).store
          ≡ update_task st.task (register_thread (tasks st.task)).1 tasks)
unfolding register_loop register_thread
register_loop-some tasks [] st e = absurd (ground arith)
register_loop-some tasks (x ∷ q) st e = ground (arith, register_loop-some tasks q st)

register_loop-none :
    (tasks : ℕ → Task) (q : List ScheduledTask)
    → (register_loop tasks q).scheduled ≡ none
    → (register_loop tasks q).store ≡ tasks
unfolding register_loop register_thread
register_loop-none tasks [] e = refl
register_loop-none tasks (x ∷ q) e = ground (arith, register_loop-none tasks q)

abbrev AllConsistent : TaskScheduler → (ℕ → ℕ) → Type 0
AllConsistent s running = (p : ℕ) → IsConsistent (s.tasks p) (running p)

update-IsConsistent :
    (tasks : ℕ → Task) (running : ℕ → ℕ) (p n : ℕ) (t : Task)
    → ((q : ℕ) → IsConsistent (tasks q) (running q))
    → IsConsistent t n
    → (q : ℕ) → IsConsistent (update_task p t tasks q) (at p n running q)
update-IsConsistent tasks running p n t c ct q = elim (Bool-cases (p == q)) [
  | inl e ↦ rw e ct
  | inr e ↦ rw e (c q)
]

schedule_task-AllConsistent :
    (s : TaskScheduler) (running : ℕ → ℕ) (p : ℕ)
    → AllConsistent s running
    → AllConsistent (schedule_task s p).1 running
unfolding schedule_task
schedule_task-AllConsistent s running p c = c

remove_erroring_task-AllConsistent :
    (s : TaskScheduler) (running : ℕ → ℕ) (id : ℕ)
    → AllConsistent s running
    → AllConsistent (remove_erroring_task s id) running
unfolding remove_erroring_task
remove_erroring_task-AllConsistent s running p c = c

takes-AllConsistent :
    (s s' : TaskScheduler) (running : ℕ → ℕ) (st : ScheduledTask)
    → get_task_and_register s ≡ (some st, s')
    → AllConsistent s running
    → AllConsistent s' (at st.task (running st.task + 1) running)
unfolding get_task_and_register
takes-AllConsistent s s' running st e c p =
    let (registered, store) = register_loop-some s.tasks s.task_queue st (ap (λ r. r.0) e) in
    let joined =
      register_thread-IsConsistent (s.tasks st.task) (running st.task) registered (c st.task) in
    let all = update-IsConsistent s.tasks running st.task (running st.task + 1) _ c joined p in
    rw (sym (ap (λ r. r.1.tasks) e), store) all

finds_none-AllConsistent :
    (s s' : TaskScheduler) (running : ℕ → ℕ)
    → get_task_and_register s ≡ (none, s')
    → AllConsistent s running
    → AllConsistent s' running
unfolding get_task_and_register
finds_none-AllConsistent s s' running e c p =
    let store = register_loop-none s.tasks s.task_queue (ap (λ r. r.0) e) in
    rw (sym (ap (λ r. r.1.tasks) e), store) (c p)

throws-AllConsistent :
    (s : TaskScheduler) (running : ℕ → ℕ) (q e : ℕ)
    → 0 < running q
    → AllConsistent s running
    → (p : ℕ) → IsConsistent (update_task q (set_exception e (s.tasks q)) s.tasks p) (running p)
throws-AllConsistent s running q e h c p = elim (Bool-cases (q == p)) [
  | inl e' ↦
      let same : q ≡ p = ground (arith, e') in
      rw (e', same) (set_exception-IsConsistent (s.tasks p) (running p) e (rw same at h) (c p))
  | inr e' ↦ rw e' (c p)
]

-- After any history of calls, for every task: the workers on it and those that have finished are
-- those that have registered, except that a finalization that threw is counted as one more finish;
-- at most its maximal number of threads have registered; finalizeIfNecessary has thrown at most
-- once, and then not before all registered threads had finished; it has been called once if it has
-- thrown or the task is completed without an exception, and not at all otherwise; and only a task
-- with a registered thread has an exception.
pub Reach-IsConsistent :
    {max_num_threads : ℕ → ℕ} {s : TaskScheduler} {running : ℕ → ℕ} (p : ℕ)
    → Reach max_num_threads s running
    → IsConsistent (s.tasks p) (running p)
Reach-IsConsistent p starts = new_task-IsConsistent _
Reach-IsConsistent p (schedules {s} {running} q r) =
    schedule_task-AllConsistent s running q (λ x. Reach-IsConsistent x r) p
Reach-IsConsistent p (takes {s} {running} s' st r e) =
    takes-AllConsistent s s' running st e (λ x. Reach-IsConsistent x r) p
Reach-IsConsistent p (finds_none {s} {running} s' r e) =
    finds_none-AllConsistent s s' running e (λ x. Reach-IsConsistent x r) p
Reach-IsConsistent p (throws {s} {running} q e r h) =
    throws-AllConsistent s running q e h (λ x. Reach-IsConsistent x r) p
Reach-IsConsistent p (leaves {s} {running} q thrown rethrown t' r h e) =
    update-IsConsistent s.tasks running q _ _ (λ x. Reach-IsConsistent x r)
      (rw e at
        (deregister_thread-IsConsistent (s.tasks q) (running q) thrown h (Reach-IsConsistent q r)))
      p
Reach-IsConsistent p (waits e q r h) = Reach-IsConsistent p r
Reach-IsConsistent p (removes {s} {running} id r) =
    remove_erroring_task-AllConsistent s running id (λ x. Reach-IsConsistent x r) p
