-- ===== src/Round/Workflow/Branches.antt =====
-- src/round/workflow.ts, `executeSubtasks` and `runBranch`. A round's branches run concurrently in the
-- source, and one after another here: each is a sequence of steps on its own row.
use looping_core.Base.{ℕ, zero, suc, ◌+◌, true, false, List, [], ◌∷◌}
use looping_core.Base.Step.{Step, ◌>>=◌, ◌>>◌, pure, catch}
use looping_core.Round.Workflow.Agent.{TaskAgent, SubtaskScan, scan_canceled, scan_ids}

-- src/platform.ts.
abbrev pub max_chunks_per_branch : ℕ
max_chunks_per_branch = 40

pub data Executed : Type 0 where
  executed_all executed_none : Executed

module _ (agent : TaskAgent) where
  open agent use {W, E, scan_subtasks, cancel_pending_subtasks, execute_subtask_chunk, fail_subtask}

  -- The chunks that are left to a branch. One that is never done is failed at the end.
  unfoldable pub run_chunks : ℕ → ℕ → ℕ → Step W E (Unit {0})
  run_chunks id zero chunk = fail_subtask id
  run_chunks id (suc left) chunk = do
    done ← execute_subtask_chunk id chunk
    elim done [ true ↦ pure tt | false ↦ run_chunks id left (chunk + 1) ]

  -- Whatever throws inside, the branch is failed by one more step.
  unfoldable pub run_branch : ℕ → Step W E (Unit {0})
  unfolding run_chunks
  run_branch id = catch (run_chunks id max_chunks_per_branch 0) (λ _. fail_subtask id)

  unfoldable pub run_branches : List ℕ → Step W E (Unit {0})
  unfolding run_branch
  run_branches [] = pure tt
  run_branches (id ∷ ids) = do run_branch id; run_branches ids

  unfoldable pub scanned : SubtaskScan → Step W E Executed
  unfolding run_branches
  scanned scan_canceled = do cancel_pending_subtasks; pure executed_none
  scanned (scan_ids ids) = do run_branches ids; pure executed_all

  unfoldable pub execute_subtasks : ℕ → Step W E Executed
  unfolding scanned
  execute_subtasks round = do scan ← scan_subtasks round; scanned scan
