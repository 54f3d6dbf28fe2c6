-- ===== src/Round/Workflow/Cost.antt =====
-- What one Task may cost over all of its rounds: the loop of src/round/workflow.ts.
use looping_core.Base.{
  ℕ, zero, suc, ◌+◌, ◌-◌, ◌≤◌, max, ◌≡◌, refl, ◌<◌, Bool, ◌||◌, leb, inl, inr, Bool-cases, Outcome,
  returned, threw, arith,
}
use looping_core.Base.Step.{Step, ◌>>=◌, >>=-post}
use looping_core.Round.Turn.Env.{RoundMode}
use looping_core.Round.Workflow.Agent.{
  TaskAgent, HandleTaskDeps, TurnTaskResult, replied, delegated, failed, canceled,
}
use looping_core.Round.Workflow.Branches.{Executed, executed_all, executed_none, execute_subtasks}
use looping_core.Round.Workflow.Loop.{
  LoopRun, round_mode, is_overdue, continue_with, after_turn, run_rounds, round_loop,
}
use looping_core.Round.Workflow.Ends.{IsFinalFree}

abbrev pub cost : {Kind : Type 0} → TurnTaskResult Kind → ℕ
cost (replied text t) = t
cost (delegated t) = t
cost (failed kind e t) = t
cost (canceled t) = t

-- What a round may cost, as Round/Turn/Spend proves it of `runTurn`.
pub record IsFrugal (agent : TaskAgent) : Type 0 where
  pub within :
      (round : ℕ) (mode : RoundMode) (left : ℕ) (w : agent.W) (r : TurnTaskResult agent.Kind)
      → (agent.run_task_turn round mode left w).0 ≡ returned r
      → cost r ≤ max 2 (left + 1)

module _ (agent : TaskAgent) (deps : HandleTaskDeps agent.Kind) where
  open agent use {W, E, Kind, now, run_task_turn}

  abbrev pub Within : ℕ → Outcome E (LoopRun Kind) → Type 0
  Within n (returned r) = r.turns_used ≤ n
  Within n (threw e) = Unit

  after_turn-Within :
      (n round used : ℕ) (next : ℕ → Step W E (LoopRun Kind)) (turn : TurnTaskResult Kind) (w : W)
      → used + cost turn ≤ n
      → ((t : ℕ) (w' : W) → turn ≡ delegated t → Within n (next (used + t) w').0)
      → Within n (after_turn agent deps round used next turn w).0
  unfolding after_turn continue_with
  after_turn-Within n round used next (canceled t) w h k = h
  after_turn-Within n round used next (failed kind e t) w h k = h
  after_turn-Within n round used next (replied x t) w h k = h
  after_turn-Within n round used next (delegated t) w h k =
      >>=-post (Within n) (execute_subtasks agent round)
        (continue_with agent deps (used + t) (next (used + t))) w (λ e. tt) ran
    where
      ran :
          (x : Executed) (w' : W)
          → (execute_subtasks agent round w).0 ≡ returned x
          → Within n (continue_with agent deps (used + t) (next (used + t)) x w').0
      ran executed_all w' _ = k t w' refl
      ran executed_none w' _ = h

  module _ (finals : IsFinalFree agent) (frugal : IsFrugal agent) where
    -- A round that delegates leaves the count one above the budget at most.
    delegated_price :
        (overdue : Bool) (round used t : ℕ) (w : W)
        → (run_task_turn round (round_mode deps.max_turns used overdue) (deps.max_turns - used) w).0
          ≡ returned (delegated t)
        → used ≤ deps.max_turns + 1
        → used + t ≤ deps.max_turns + 1
    unfolding round_mode
    delegated_price overdue round used t w h u =
        elim (Bool-cases (leb deps.max_turns used || overdue)) [
          | inl last ↦ let free = finals.final_free round _ t w (rw last at h) in omega arith
          | inr open_still ↦
              let price = frugal.within round _ (deps.max_turns - used) w (delegated t) h in
              let under : used < deps.max_turns = ground arith in omega (arith, price)
        ]

    run_rounds-Within :
        (started left round used : ℕ) (w : W)
        → used ≤ deps.max_turns + 1
        → Within (deps.max_turns + 3) (run_rounds agent deps started left round used w).0
    unfolding run_rounds
    run_rounds-Within started zero round used w u = omega arith
    run_rounds-Within started (suc left) round used w u =
        let next : ℕ → Step W E (LoopRun Kind) =
          λ used'. run_rounds agent deps started left (round + 1) used' in
        let mode : ℕ → RoundMode =
          λ at. round_mode deps.max_turns used (is_overdue agent deps started at) in
        let decide : ℕ → Step W E (TurnTaskResult Kind) =
          λ at. run_task_turn round (mode at) (deps.max_turns - used) in
        let goal : Outcome E (LoopRun Kind) → Type 0 = Within (deps.max_turns + 3) in
        >>=-post goal now (λ at. decide at >>= after_turn agent deps round used next) w (λ e. tt)
          λ at w₁ _.
            >>=-post goal (decide at) (after_turn agent deps round used next) w₁ (λ e. tt)
              λ turn w₂ h.
                let price = frugal.within round (mode at) (deps.max_turns - used) w₁ turn h in
                after_turn-Within (deps.max_turns + 3) round used next turn w₂
                  (omega (arith, price))
                  λ t w₃ d. run_rounds-Within started left (round + 1) (used + t) w₃ (
                    delegated_price (is_overdue agent deps started at) round used t w₁ (rw d at h)
                      u)

    -- With an agent whose final rounds hand out rows at no turns only, and whose rounds overdraw what is
    -- left by one turn, or cost two, at most: over all of its rounds, those at no turns included, a Task
    -- costs three turns more than its budget at most.
    pub round_loop-Within :
        (started : ℕ) (w : W) → Within (deps.max_turns + 3) (round_loop agent deps started w).0
    unfolding round_loop
    round_loop-Within started w = run_rounds-Within started (suc deps.max_turns) 0 0 w (omega arith)
