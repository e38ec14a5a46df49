-- ===== src/TaskSystem.antt =====
-- Tasks and their scheduler: src/common/task_system and its headers.
--
-- Tasks are shared by pointers, so the scheduler keeps a store of them, from pointers to tasks. The
-- queue holds pointers. Each function that locks the mutex of the scheduler or of a task is a step.
use graphflowdb.Base.{
  ℕ, ◌+◌, Bool, true, false, ◌&&◌, not, List, [], ◌∷◌, ◌++◌, Option, none, some, arith,
  if◌then◌else◌, ◌==◌, ltb,
}
pub mod Counts
pub mod Queue
mod Examples

-- `exceptions_ptr` holds a number for the exception. finalizeIfNecessary is defined by the users of
-- Task: `num_finalized` counts its calls, and `num_failed_finalizations` those that throw.
pub record Task : Type 0 where
  pub max_num_threads : ℕ
  pub num_threads_finished : ℕ
  pub num_threads_registered : ℕ
  pub exceptions_ptr : Option ℕ
  pub num_finalized : ℕ
  pub num_failed_finalizations : ℕ

abbrev pub new_task : ℕ → Task
new_task max_num_threads = record {
  max_num_threads = max_num_threads;
  num_threads_finished = 0;
  num_threads_registered = 0;
  exceptions_ptr = none;
  num_finalized = 0;
  num_failed_finalizations = 0;
}

abbrev pub is_set : Option ℕ → Bool
is_set none = false
is_set (some e) = true

abbrev pub has_exception : Task → Bool
has_exception t = is_set t.exceptions_ptr

abbrev pub is_completed : Task → Bool
is_completed t =
    ltb 0 t.num_threads_registered && t.num_threads_finished == t.num_threads_registered

abbrev pub is_completed_successfully : Task → Bool
is_completed_successfully t = is_completed t && not (has_exception t)

abbrev pub can_register : Task → Bool
can_register t = 0 == t.num_threads_finished && ltb t.num_threads_registered t.max_num_threads

pub register_thread : Task → Bool × Task
register_thread t =
    if not (has_exception t) && can_register t
    then (true, record t { num_threads_registered = t.num_threads_registered + 1 })
    else (false, t)

-- With the exception that finalizeIfNecessary throws, if it is called, which then is thrown on.
pub deregister_thread_and_finalize_task_if_necessary : Option ℕ → Task → Option ℕ × Task
deregister_thread_and_finalize_task_if_necessary thrown t =
    let t' : Task = record t { num_threads_finished = t.num_threads_finished + 1 } in
    if not (has_exception t') && is_completed t'
    then (
      thrown,
      record t' {
        num_finalized = t'.num_finalized + 1;
        num_failed_finalizations = t'.num_failed_finalizations + (if is_set thrown then 1 else 0);
      },
    )
    else (none, t')

-- Only the first exception is kept.
pub set_exception : ℕ → Task → Task
set_exception e t = if has_exception t then t else record t { exceptions_ptr = some e }

pub record ScheduledTask : Type 0 where
  pub task : ℕ
  pub id : ℕ

pub record TaskScheduler : Type 0 where
  pub tasks : ℕ → Task
  pub task_queue : List ScheduledTask
  pub next_scheduled_task_id : ℕ

abbrev pub new_task_scheduler : (ℕ → Task) → TaskScheduler
new_task_scheduler tasks = record { tasks = tasks; task_queue = []; next_scheduled_task_id = 0 }

-- The store after the task behind the pointer `p` has changed.
abbrev pub update_task : ℕ → Task → (ℕ → Task) → ℕ → Task
update_task p t tasks q = if p == q then t else tasks q

pub schedule_task : TaskScheduler → ℕ → ScheduledTask × TaskScheduler
schedule_task s p =
    let scheduled : ScheduledTask = record { task = p; id = s.next_scheduled_task_id } in
    (
      scheduled,
      record s {
        task_queue = s.task_queue ++ (scheduled ∷ []);
        next_scheduled_task_id = s.next_scheduled_task_id + 1;
      },
    )

-- What the loop of getTaskAndRegister returns: the task, and the queue and the store it leaves.
pub record Taken : Type 0 where
  pub scheduled : Option ScheduledTask
  pub queue : List ScheduledTask
  pub store : ℕ → Task

-- The loop of getTaskAndRegister over the rest of the queue.
pub register_loop : (ℕ → Task) → List ScheduledTask → Taken
unfolding register_thread
register_loop tasks [] = record { scheduled = none; queue = []; store = tasks }
register_loop tasks (st ∷ rest) =
    let (registered, t') = register_thread (tasks st.task) in
    let later = register_loop tasks rest in
    if registered
    then record { scheduled = some st; queue = st ∷ rest; store = update_task st.task t' tasks }
    else if is_completed_successfully (tasks st.task)
    then later
    else record later { queue = st ∷ later.queue }

pub get_task_and_register : TaskScheduler → Option ScheduledTask × TaskScheduler
unfolding register_loop
get_task_and_register s =
    let taken = register_loop s.tasks s.task_queue in
    (taken.scheduled, record s { tasks = taken.store; task_queue = taken.queue })

pub remove_loop : ℕ → List ScheduledTask → List ScheduledTask
remove_loop id [] = []
remove_loop id (st ∷ rest) = if id == st.id then rest else st ∷ remove_loop id rest

pub remove_erroring_task : TaskScheduler → ℕ → TaskScheduler
unfolding remove_loop
remove_erroring_task s id = record s { task_queue = remove_loop id s.task_queue }

-- One round of the loop of waitAllTasksToCompleteOrError: it returns, throws the exception of a
-- task that it has removed, or sleeps.
pub data Waited : Type 0 where
  complete : Waited
  error : ℕ → List ScheduledTask → Waited
  sleep : Waited

-- The search for the first task with an exception; the tasks before it stay in the queue.
pub find_error : (ℕ → Task) → List ScheduledTask → Option (ℕ × List ScheduledTask)
find_error tasks [] = none
find_error tasks (st ∷ rest) = elim ((tasks st.task).exceptions_ptr) [
  | some e ↦ some (e, rest)
  | none ↦ elim (find_error tasks rest) [ none ↦ none | some (e, q) ↦ some (e, st ∷ q) ]
]

abbrev pub waited : Option (ℕ × List ScheduledTask) → Waited
waited none = sleep
waited (some (e, q)) = error e q

abbrev pub wait_on : (ℕ → Task) → List ScheduledTask → Waited
unfolding find_error
wait_on tasks [] = complete
wait_on tasks (st ∷ rest) = waited (find_error tasks (st ∷ rest))

pub wait_round : TaskScheduler → Waited
wait_round s = wait_on s.tasks s.task_queue
