-- ===== src/Round/Workflow/Terminal.antt =====
-- What a branch leaves behind: `runBranch` of src/round/workflow.ts.
use looping_core.Base.{ℕ, zero, suc, ◌+◌, Bool, true, false, ◌≡◌, refl, Outcome, returned, threw}
use looping_core.Base.Step.{Step, after, pure, rescue, catch}
use looping_core.Round.Workflow.Agent.{TaskAgent}
use looping_core.Round.Workflow.Branches.{run_chunks, run_branch}

module _ (agent : TaskAgent) where
  open agent use {W, E, execute_subtask_chunk, fail_subtask}

  -- What the agent promises of a row: a chunk that reports `done` leaves it terminal, and so does
  -- failing it, which does not throw.
  pub record IsSettling (IsTerminal : ℕ → W → Type 0) : Type 0 where
    pub done_settles :
        (id chunk : ℕ) (w : W)
        → (execute_subtask_chunk id chunk w).0 ≡ returned true
        → IsTerminal id (execute_subtask_chunk id chunk w).1
    pub fail_settles : (id : ℕ) (w : W) → IsTerminal id (fail_subtask id w).1
    pub fail_returns : (id : ℕ) (w : W) → (fail_subtask id w).0 ≡ returned tt

  -- A step that returned, and left the row terminal.
  abbrev pub Settled : (ℕ → W → Type 0) → ℕ → Outcome E (Unit {0}) × W → Type 0
  Settled IsTerminal id r = (r.0 ≡ returned tt) × IsTerminal id r.1

  module _ (IsTerminal : ℕ → W → Type 0) (settling : IsSettling IsTerminal) where
    fail-Settled : (id : ℕ) (w : W) → Settled IsTerminal id (fail_subtask id w)
    fail-Settled id w = (settling.fail_returns id w, settling.fail_settles id w)

    -- After a chunk: done, not done, or thrown.
    chunk-Settled :
        (id : ℕ) (next : Step W E (Unit {0})) (tried : Outcome E Bool × W)
        → (tried.0 ≡ returned true → IsTerminal id tried.1)
        → ((w : W) → Settled IsTerminal id (catch next (λ _. fail_subtask id) w))
        → Settled IsTerminal id (
            catch
              (λ _. after (λ done. elim done [ true ↦ pure tt | false ↦ next ]) tried)
              (λ _. fail_subtask id)
              tried.1)
    chunk-Settled id next (returned true, w) d k = (refl, d refl)
    chunk-Settled id next (returned false, w) d k = k w
    chunk-Settled id next (threw e, w) d k = fail-Settled id w

    rescue-Settled :
        (id : ℕ) (r : Outcome E (Unit {0}) × W)
        → Settled IsTerminal id r
        → Settled IsTerminal id (rescue (λ _. fail_subtask id) r)
    rescue-Settled id (returned a, w) s = s
    rescue-Settled id (threw e, w) s = absurd (cc (s.0))

    run_chunks-Settled :
        (id left chunk : ℕ) (w : W)
        → Settled IsTerminal id (catch (run_chunks agent id left chunk) (λ _. fail_subtask id) w)
    unfolding run_chunks
    run_chunks-Settled id zero chunk w = rescue-Settled id (fail_subtask id w) (fail-Settled id w)
    run_chunks-Settled id (suc left) chunk w =
        chunk-Settled id (run_chunks agent id left (chunk + 1)) (execute_subtask_chunk id chunk w)
          (settling.done_settles id chunk w) (run_chunks-Settled id left (chunk + 1))

    -- Where a chunk that is done leaves its row terminal, and failing a row returns and leaves it
    -- terminal, a branch never rejects and always leaves its row terminal: done, failed when it threw,
    -- or failed when its chunks ran out.
    pub run_branch-Settled : (id : ℕ) (w : W) → Settled IsTerminal id (run_branch agent id w)
    unfolding run_branch
    run_branch-Settled id w = run_chunks-Settled id 40 0 w
