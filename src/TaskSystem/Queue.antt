-- ===== src/TaskSystem/Queue.antt =====
-- The queue of the scheduler: which task a worker gets, and which tasks leave the queue.
use graphflowdb.Base.{
  ℕ, ◌+◌, ◌≤◌, ◌<◌, ◌≡◌, ◌≢◌, refl, Bool, true, ◌&&◌, not, List, [], ◌∷◌, ◌++◌, Option, none, some,
  arith, if◌then◌else◌, ◌==◌, Option-cases, inl, inr, ap, sym, ◌↔◌,
}
use graphflowdb.TaskSystem.{
  Task, has_exception, is_completed_successfully, can_register, register_thread, ScheduledTask,
  TaskScheduler, schedule_task, register_loop, get_task_and_register, remove_erroring_task,
  remove_loop, complete, sleep, error, wait_round, find_error, wait_on,
}
use graphflowdb.TaskSystem.Counts.{
  Reach, starts, schedules, takes, finds_none, throws, leaves, waits, removes,
}

-- A worker can join the task.
abbrev pub is_registrable : (ℕ → Task) → ScheduledTask → Bool
is_registrable tasks st = not (has_exception (tasks st.task)) && can_register (tasks st.task)

-- The queue before, and from, the first task that a worker can join.
abbrev pub before_registrable : (ℕ → Task) → List ScheduledTask → List ScheduledTask
before_registrable tasks [] = []
before_registrable tasks (st ∷ q) =
    if is_registrable tasks st then [] else st ∷ before_registrable tasks q

abbrev pub from_registrable : (ℕ → Task) → List ScheduledTask → List ScheduledTask
from_registrable tasks [] = []
from_registrable tasks (st ∷ q) =
    if is_registrable tasks st then st ∷ q else from_registrable tasks q

abbrev pub head : List ScheduledTask → Option ScheduledTask
head [] = none
head (st ∷ q) = some st

-- The tasks of a queue that have not completed successfully.
abbrev pub uncompleted : (ℕ → Task) → List ScheduledTask → List ScheduledTask
uncompleted tasks [] = []
uncompleted tasks (st ∷ q) =
    if is_completed_successfully (tasks st.task)
    then uncompleted tasks q
    else st ∷ uncompleted tasks q

register_loop_lem :
    (tasks : ℕ → Task) (q : List ScheduledTask)
    → ((register_loop tasks q).scheduled ≡ head (from_registrable tasks q))
      × ((register_loop tasks q).queue
          ≡ uncompleted tasks (before_registrable tasks q) ++ from_registrable tasks q)
unfolding register_loop register_thread
register_loop_lem tasks [] = (refl, refl)
register_loop_lem tasks (st ∷ q) = ground (arith, register_loop_lem tasks q)

-- A worker gets the first task of the queue that it can join. Of the tasks before that one,
-- exactly those that have completed successfully leave the queue; the others stay in their order,
-- and so does the rest of the queue.
pub get_task_and_register_lem :
    (s : TaskScheduler)
    → ((get_task_and_register s).0 ≡ head (from_registrable s.tasks s.task_queue))
      × ((get_task_and_register s).1.task_queue
          ≡ uncompleted s.tasks (before_registrable s.tasks s.task_queue)
            ++ from_registrable s.tasks s.task_queue)
unfolding get_task_and_register
get_task_and_register_lem s = register_loop_lem s.tasks s.task_queue

-- The ids of a queue ascend from `lo` on and stay below `hi`.
abbrev pub Ascending : ℕ → ℕ → List ScheduledTask → Type 0
Ascending lo hi [] = lo ≤ hi
Ascending lo hi (st ∷ q) = (lo ≤ st.id) × Ascending (st.id + 1) hi q

Ascending-raise : (lo hi : ℕ) (q : List ScheduledTask) → Ascending lo hi q → lo ≤ hi
Ascending-raise lo hi [] a = a
Ascending-raise lo hi (st ∷ q) a = omega (arith, Ascending-raise (st.id + 1) hi q a.1)

Ascending-weaken :
    (lo lo' hi : ℕ) (q : List ScheduledTask) → lo' ≤ lo → Ascending lo hi q → Ascending lo' hi q
Ascending-weaken lo lo' hi [] h a = omega arith
Ascending-weaken lo lo' hi (st ∷ q) h a = (omega arith, a.1)

Ascending-add :
    (lo hi p : ℕ) (q : List ScheduledTask)
    → Ascending lo hi q
    → Ascending lo (hi + 1) (q ++ (record { task = p; id = hi } ∷ []))
Ascending-add lo hi p [] a = (a, omega arith)
Ascending-add lo hi p (st ∷ q) a = (a.0, Ascending-add (st.id + 1) hi p q a.1)

Ascending-register :
    (tasks : ℕ → Task) (lo hi : ℕ) (q : List ScheduledTask)
    → Ascending lo hi q
    → Ascending lo hi (register_loop tasks q).queue
unfolding register_loop register_thread
Ascending-register tasks lo hi [] a = a
Ascending-register tasks lo hi (st ∷ q) a = ground (
  arith,
  Ascending-register tasks (st.id + 1) hi q,
  Ascending-weaken (st.id + 1) lo hi (register_loop tasks q).queue,
)

Ascending-remove :
    (id lo hi : ℕ) (q : List ScheduledTask) → Ascending lo hi q → Ascending lo hi (remove_loop id q)
unfolding remove_loop
Ascending-remove id lo hi [] a = a
Ascending-remove id lo hi (st ∷ q) a =
    ground (arith, Ascending-remove id (st.id + 1) hi q, Ascending-weaken (st.id + 1) lo hi q)

Ascending-error :
    (tasks : ℕ → Task) (lo hi e : ℕ) (q q' : List ScheduledTask)
    → Ascending lo hi q
    → find_error tasks q ≡ some (e, q')
    → Ascending lo hi q'
unfolding find_error
Ascending-error tasks lo hi e [] q' a h = absurd (ground arith)
Ascending-error tasks lo hi e (st ∷ q) q' a h =
    elim (Option-cases ((tasks st.task).exceptions_ptr)) [
      | inl e₀ ↦ elim (Option-cases (find_error tasks q)) [
        | inl e₁ ↦ absurd (ground (arith, e₀, e₁))
        | inr ((e', r), e₁) ↦
            let rest : st ∷ r ≡ q' = ground (arith, e₀, e₁) in
            rw (sym rest) (a.0, Ascending-error tasks (st.id + 1) hi e' q r a.1 e₁)
      ]
      | inr (e', e₀) ↦
          let rest : q ≡ q' = ground (arith, e₀) in
          rw (sym rest) (Ascending-weaken (st.id + 1) lo hi q (omega arith) a.1)
    ]

-- The queue of the scheduler.
abbrev pub IsQueue : TaskScheduler → Type 0
IsQueue s = Ascending 0 s.next_scheduled_task_id s.task_queue

schedule_task-IsQueue : (s : TaskScheduler) (p : ℕ) → IsQueue s → IsQueue (schedule_task s p).1
unfolding schedule_task
schedule_task-IsQueue s p a = Ascending-add 0 s.next_scheduled_task_id p s.task_queue a

get_task_and_register-IsQueue :
    (s s' : TaskScheduler) (o : Option ScheduledTask)
    → get_task_and_register s ≡ (o, s')
    → IsQueue s
    → IsQueue s'
unfolding get_task_and_register
get_task_and_register-IsQueue s s' o e a =
    rw (sym (ap (λ r. r.1.task_queue) e), sym (ap (λ r. r.1.next_scheduled_task_id) e))
      (Ascending-register s.tasks 0 s.next_scheduled_task_id s.task_queue a)

wait_on-Ascending :
    (tasks : ℕ → Task) (lo hi e : ℕ) (q q' : List ScheduledTask)
    → wait_on tasks q ≡ error e q'
    → Ascending lo hi q
    → Ascending lo hi q'
unfolding wait_on
wait_on-Ascending tasks lo hi e [] q' h a = absurd (ground arith)
wait_on-Ascending tasks lo hi e (st ∷ q) q' h a = elim (Option-cases (find_error tasks (st ∷ q))) [
  | inl e₀ ↦ absurd (ground (arith, e₀))
  | inr ((e', r), e₀) ↦
      let rest : r ≡ q' = ground (arith, e₀) in
      rw (sym rest) (Ascending-error tasks lo hi e' (st ∷ q) r a e₀)
]

wait_round-IsQueue :
    (s : TaskScheduler) (e : ℕ) (q : List ScheduledTask)
    → wait_round s ≡ error e q
    → IsQueue s
    → Ascending 0 s.next_scheduled_task_id q
unfolding wait_round
wait_round-IsQueue s e q h a =
    wait_on-Ascending s.tasks 0 s.next_scheduled_task_id e s.task_queue q h a

remove_erroring_task-IsQueue :
    (s : TaskScheduler) (id : ℕ) → IsQueue s → IsQueue (remove_erroring_task s id)
unfolding remove_erroring_task
remove_erroring_task-IsQueue s id a = Ascending-remove id 0 s.next_scheduled_task_id s.task_queue a

-- After any history of calls the ids of the queued tasks ascend strictly, in the order in which the
-- tasks were scheduled, and the next id is above them all.
pub Reach-IsQueue :
    {max_num_threads : ℕ → ℕ} {s : TaskScheduler} {running : ℕ → ℕ}
    → Reach max_num_threads s running
    → IsQueue s
Reach-IsQueue starts = omega arith
Reach-IsQueue (schedules {s} p r) = schedule_task-IsQueue s p (Reach-IsQueue r)
Reach-IsQueue (takes {s} s' st r e) = get_task_and_register-IsQueue s s' _ e (Reach-IsQueue r)
Reach-IsQueue (finds_none {s} s' r e) = get_task_and_register-IsQueue s s' _ e (Reach-IsQueue r)
Reach-IsQueue (throws p e r h) = Reach-IsQueue r
Reach-IsQueue (leaves p thrown rethrown t' r h e) = Reach-IsQueue r
Reach-IsQueue (waits {s} e q r h) = wait_round-IsQueue s e q h (Reach-IsQueue r)
Reach-IsQueue (removes {s} id r) = remove_erroring_task-IsQueue s id (Reach-IsQueue r)

-- The queue without the tasks of an id.
abbrev pub without : ℕ → List ScheduledTask → List ScheduledTask
without id [] = []
without id (st ∷ q) = if id == st.id then without id q else st ∷ without id q

without-above :
    (id lo hi : ℕ) (q : List ScheduledTask) → id < lo → Ascending lo hi q → without id q ≡ q
without-above id lo hi [] h a = refl
without-above id lo hi (st ∷ q) h a = ground (arith, without-above id (st.id + 1) hi q)

remove_loop-without :
    (id lo hi : ℕ) (q : List ScheduledTask) → Ascending lo hi q → remove_loop id q ≡ without id q
unfolding remove_loop
remove_loop-without id lo hi [] a = refl
remove_loop-without id lo hi (st ∷ q) a =
    ground (arith, remove_loop-without id (st.id + 1) hi q, without-above id (st.id + 1) hi q)

-- After any history of calls, removing a task by its id leaves exactly the queued tasks of other
-- ids, in their order: the loop, which stops at the first match, misses none.
pub remove_erroring_task_lem :
    {max_num_threads : ℕ → ℕ} {s : TaskScheduler} {running : ℕ → ℕ} (id : ℕ)
    → Reach max_num_threads s running
    → (remove_erroring_task s id).task_queue ≡ without id s.task_queue
unfolding remove_erroring_task
remove_erroring_task_lem {s} id r =
    remove_loop-without id 0 s.next_scheduled_task_id s.task_queue (Reach-IsQueue r)

-- Every task of the queue passes the test.
abbrev pub all_queued : (ScheduledTask → Bool) → List ScheduledTask → Bool
all_queued p [] = true
all_queued p (st ∷ q) = p st && all_queued p q

register_loop-completed :
    (tasks : ℕ → Task) (q : List ScheduledTask)
    → all_queued (λ st. is_completed_successfully (tasks st.task)) q ≡ true
    → register_loop tasks q ≡ record { scheduled = none; queue = []; store = tasks }
unfolding register_loop register_thread
register_loop-completed tasks [] h = refl
register_loop-completed tasks (st ∷ q) h = ground (arith, register_loop-completed tasks q)

-- When all queued tasks have completed successfully, a worker that asks for a task gets none and
-- empties the queue, and waitAllTasksToCompleteOrError returns in its next round.
pub wait_round-completed :
    (s : TaskScheduler)
    → all_queued (λ st. is_completed_successfully (s.tasks st.task)) s.task_queue ≡ true
    → ((get_task_and_register s).0 ≡ none)
      × ((get_task_and_register s).1.task_queue ≡ [])
      × (wait_round (get_task_and_register s).1 ≡ complete)
unfolding get_task_and_register wait_round wait_on
wait_round-completed s h =
    let e = register_loop-completed s.tasks s.task_queue h in rw e (refl, refl, refl)

find_error_lem :
    (tasks : ℕ → Task) (q : List ScheduledTask)
    → (find_error tasks q ≡ none)
      ↔ (all_queued (λ st. not (has_exception (tasks st.task))) q ≡ true)
unfolding find_error
find_error_lem tasks [] = ground arith
find_error_lem tasks (st ∷ q) = elim (Option-cases ((tasks st.task).exceptions_ptr)) [
  | inl e₀ ↦ elim (Option-cases (find_error tasks q)) [
    | inl e₁ ↦ ground (arith, e₀, e₁, find_error_lem tasks q)
    | inr ((e', r), e₁) ↦ ground (arith, e₀, e₁, find_error_lem tasks q)
  ]
  | inr (e', e₀) ↦ ground (arith, e₀)
]

wait_on_lem :
    (tasks : ℕ → Task) (q : List ScheduledTask)
    → ((wait_on tasks q ≡ complete) ↔ (q ≡ []))
      × ((wait_on tasks q ≡ sleep)
          ↔ ((q ≢ []) × (all_queued (λ st. not (has_exception (tasks st.task))) q ≡ true)))
unfolding wait_on
wait_on_lem tasks [] = ground arith
wait_on_lem tasks (st ∷ q) = elim (Option-cases (find_error tasks (st ∷ q))) [
  | inl e₀ ↦ ground (arith, e₀, find_error_lem tasks (st ∷ q))
  | inr ((e', r), e₀) ↦ ground (arith, e₀, find_error_lem tasks (st ∷ q))
]

-- A round of waitAllTasksToCompleteOrError returns exactly when the queue is empty, and sleeps
-- exactly when tasks are queued and none of them has an exception.
pub wait_round_lem :
    (s : TaskScheduler)
    → ((wait_round s ≡ complete) ↔ (s.task_queue ≡ []))
      × ((wait_round s ≡ sleep) ↔ (
          (s.task_queue ≢ [])
          × (all_queued (λ st. not (has_exception (s.tasks st.task))) s.task_queue ≡ true)))
unfolding wait_round
wait_round_lem s = wait_on_lem s.tasks s.task_queue
