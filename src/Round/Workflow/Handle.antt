-- ===== src/Round/Workflow/Handle.antt =====
-- src/round/workflow.ts, `orchestrate`, `deliver` and `runHandleTask`.
use looping_core.Base.{String, Bool, true, false, Option, none, some, str_eq, if◌then◌else◌}
use looping_core.Base.Step.{Step, ◌>>=◌, pure, catch}
use looping_core.A2a.Deliver.{
  Fault, TerminalTask, completed_task, failed_task, durable, deliver_terminal_task,
  deliver_abandoned_task,
}
use looping_core.Round.Workflow.Agent.{TaskAgent, HandleTaskDeps}
use looping_core.Round.Workflow.Loop.{
  LoopEnd, stopped, answered, round_failed, fell_through, round_loop,
}

-- `copy || default`: an empty text falls back too.
unfoldable pub text_or : Option String → String → String
text_or none d = d
text_or (some t) d = if str_eq t "" then d else t

-- The terminal Task of each end; a canceled Task gets none.
unfoldable pub terminal_of :
    {Kind : Type 0} → HandleTaskDeps Kind → LoopEnd Kind → Option TerminalTask
unfolding text_or
terminal_of deps stopped = none
terminal_of deps (answered text) = some (completed_task text)
terminal_of deps (round_failed kind e) =
    some (failed_task (text_or (deps.failure_copy kind e) deps.task_failed))
terminal_of deps fell_through = some (failed_task deps.task_failed)

module _ (agent : TaskAgent) (deps : HandleTaskDeps agent.Kind) where
  open agent use {W, E, Kind, mark_working, now, delivery}

  deliver_end : Option TerminalTask → Step W (Fault E) (Unit {0})
  unfolding deliver_terminal_task
  deliver_end none = pure tt
  deliver_end (some task) = deliver_terminal_task delivery task

  begin_rounds : Bool → Step W (Fault E) (Unit {0})
  unfolding deliver_end round_loop terminal_of
  begin_rounds false = pure tt
  begin_rounds true = do
    started ← durable now
    run ← durable (round_loop agent deps started)
    deliver_end (terminal_of deps run.end)

  unfoldable pub orchestrate : Step W (Fault E) (Unit {0})
  unfolding begin_rounds
  orchestrate = do started ← durable mark_working; begin_rounds started

  -- Whatever escapes is turned into a delivered failure.
  unfoldable pub run_handle_task : Step W (Fault E) (Unit {0})
  unfolding orchestrate deliver_abandoned_task
  run_handle_task =
      catch (orchestrate) (λ cause. deliver_abandoned_task delivery deps.task_failed cause)
