-- ===== src/TaskSystem/Examples.antt =====
-- Runs of the scheduler, and uses of its theorems.
use graphflowdb.Base.{◌≡◌, refl, true, [], ◌∷◌, ◌++◌, none, some, arith}
use graphflowdb.TaskSystem.{
  new_task, is_completed_successfully, register_thread,
  deregister_thread_and_finalize_task_if_necessary, ScheduledTask, TaskScheduler,
  new_task_scheduler, update_task, schedule_task, get_task_and_register, register_loop, complete,
  wait_round,
}
use graphflowdb.TaskSystem.Counts.{
  IsConsistent, at, Reach, starts, schedules, takes, leaves, Reach-IsConsistent,
}
use graphflowdb.TaskSystem.Queue.{
  IsQueue, before_registrable, from_registrable, head, uncompleted, get_task_and_register_lem,
  Reach-IsQueue, wait_round-completed, all_queued,
}

-- Tasks for one thread each; the tasks 0 and 1 are scheduled.
two : TaskScheduler
unfolding schedule_task
two = (schedule_task (schedule_task (new_task_scheduler (λ p. new_task 1)) 0).1 1).1

Reach-two : Reach (λ p. 1) two (λ p. 0)
unfolding two
Reach-two = schedules 1 (schedules 0 starts)

first : ScheduledTask
first = record { task = 0; id = 0 }

-- A worker has taken the first task.
taken : TaskScheduler
unfolding two get_task_and_register
taken = (get_task_and_register two).1

taken-first : get_task_and_register two ≡ (some first, taken)
unfolding taken two first get_task_and_register schedule_task register_loop
taken-first = refl

Reach-taken : Reach (λ p. 1) taken (at 0 1 (λ p. 0))
unfolding first
Reach-taken = takes taken first Reach-two taken-first

-- It has finished.
finished : TaskScheduler
unfolding taken deregister_thread_and_finalize_task_if_necessary
finished = record taken {
  tasks =
      update_task 0 (deregister_thread_and_finalize_task_if_necessary none (taken.tasks 0)).1
        taken.tasks;
}

Reach-finished : Reach (λ p. 1) finished (at 0 0 (at 0 1 (λ p. 0)))
unfolding finished
Reach-finished = leaves 0 none none _ Reach-taken (omega arith) refl

-- The finished task was finalized, and is still in the queue.
finalized_once : (finished.tasks 0).num_finalized ≡ 1
unfolding finished taken two get_task_and_register schedule_task register_loop
    deregister_thread_and_finalize_task_if_necessary register_thread
finalized_once = refl

stays_queued : head finished.task_queue ≡ some first
unfolding finished taken two first get_task_and_register schedule_task register_loop
    deregister_thread_and_finalize_task_if_necessary register_thread
stays_queued = refl

Reach-IsConsistent_example : IsConsistent (finished.tasks 0) 0
Reach-IsConsistent_example = Reach-IsConsistent 0 Reach-finished

Reach-IsQueue_example : IsQueue finished
Reach-IsQueue_example = Reach-IsQueue Reach-finished

get_task_and_register_lem_example :
    ((get_task_and_register finished).0
      ≡ head (from_registrable finished.tasks finished.task_queue))
    × ((get_task_and_register finished).1.task_queue
        ≡ uncompleted finished.tasks (before_registrable finished.tasks finished.task_queue)
          ++ from_registrable finished.tasks finished.task_queue)
get_task_and_register_lem_example = get_task_and_register_lem finished

-- Only the finished task is queued.
one_finished : TaskScheduler
unfolding finished first
one_finished = record finished { task_queue = first ∷ [] }

all_finished :
    all_queued
      (λ st. is_completed_successfully (one_finished.tasks st.task))
      one_finished.task_queue
    ≡ true
unfolding one_finished finished taken two first get_task_and_register schedule_task register_loop
    deregister_thread_and_finalize_task_if_necessary register_thread
all_finished = refl

wait_round-completed_example :
    ((get_task_and_register one_finished).0 ≡ none)
    × ((get_task_and_register one_finished).1.task_queue ≡ [])
    × (wait_round (get_task_and_register one_finished).1 ≡ complete)
wait_round-completed_example = wait_round-completed one_finished all_finished
