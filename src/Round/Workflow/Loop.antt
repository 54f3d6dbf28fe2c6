-- ===== src/Round/Workflow/Loop.antt =====
-- src/round/workflow.ts, the round loop of `orchestrate`. The loop returns how it ended and the turns
-- that it counted; `Handle` does what the source does at each of these ends.
use looping_core.Base.{ℕ, zero, suc, ◌+◌, ◌-◌, String, Bool, ◌||◌, leb, if◌then◌else◌}
use looping_core.Base.Step.{Step, ◌>>=◌, pure}
use looping_core.Round.Turn.Env.{RoundMode, open_round, final_round}
use looping_core.Round.Workflow.Agent.{
  TaskAgent, HandleTaskDeps, TurnTaskResult, replied, delegated, failed, canceled,
}
use looping_core.Round.Workflow.Branches.{Executed, executed_all, executed_none, execute_subtasks}

-- `fell_through` is the line behind the loop.
pub data LoopEnd (Kind : Type 0) : Type 0 where
  stopped : LoopEnd Kind
  answered : String → LoopEnd Kind
  round_failed : Kind → String → LoopEnd Kind
  fell_through : LoopEnd Kind

pub record LoopRun (Kind : Type 0) : Type 0 where
  pub end : LoopEnd Kind
  pub turns_used : ℕ

-- Out of turns or out of time.
unfoldable pub round_mode : ℕ → ℕ → Bool → RoundMode
round_mode max_turns used overdue =
    if leb max_turns used || overdue then final_round else open_round

module _ (agent : TaskAgent) (deps : HandleTaskDeps agent.Kind) where
  open agent use {W, E, Kind, now, run_task_turn}

  -- `Date.now() - startedAtMs >= maxWallMs`.
  unfoldable pub is_overdue : ℕ → ℕ → Bool
  is_overdue started now = leb (started + deps.max_wall_ms) now

  -- After a delegating round's branches have run, the next round decides again.
  unfoldable pub continue_with : ℕ → Step W E (LoopRun Kind) → Executed → Step W E (LoopRun Kind)
  continue_with used next executed_none = pure (record { end = stopped; turns_used = used })
  continue_with used next executed_all = next

  unfoldable pub after_turn :
      ℕ → ℕ → (ℕ → Step W E (LoopRun Kind)) → TurnTaskResult Kind → Step W E (LoopRun Kind)
  unfolding continue_with
  after_turn round used next (canceled turns) =
      pure (record { end = stopped; turns_used = used + turns })
  after_turn round used next (failed kind e turns) =
      pure (record { end = round_failed kind e; turns_used = used + turns })
  after_turn round used next (replied text turns) =
      pure (record { end = answered text; turns_used = used + turns })
  after_turn round used next (delegated turns) = do
    executed ← execute_subtasks agent round
    continue_with (used + turns) (next (used + turns)) executed

  -- `maxTurns - turnsUsed` may be negative; a round compares it with numbers from 0 up, so it is cut
  -- off at 0.
  unfoldable pub run_rounds : ℕ → ℕ → ℕ → ℕ → Step W E (LoopRun Kind)
  unfolding after_turn is_overdue round_mode
  run_rounds started zero round used = pure (record { end = fell_through; turns_used = used })
  run_rounds started (suc left) round used = do
    at ← now
    turn ←
        run_task_turn round (round_mode deps.max_turns used (is_overdue started at))
          (deps.max_turns - used)
    after_turn round used (λ used'. run_rounds started left (round + 1) used') turn

  -- One round for each turn, and one for the forced answer.
  unfoldable pub round_loop : ℕ → Step W E (LoopRun Kind)
  unfolding run_rounds
  round_loop started = run_rounds started (suc deps.max_turns) 0 0
