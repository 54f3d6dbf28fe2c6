-- ===== src/Round/Workflow/Ends.antt =====
-- How the loop of src/round/workflow.ts ends, given what a round promises.
use looping_core.Base.{
  ℕ, zero, suc, ◌+◌, ◌-◌, ◌≤◌, ◌<◌, ◌≡◌, ◌≢◌, ◌⊎◌, refl, ap, subst, Bool, leb, ◌||◌, inl, inr,
  Bool-cases, Outcome, returned, threw, arith,
}
use looping_core.Base.Step.{Step, ◌>>=◌, >>=-ends}
use looping_core.Round.Turn.Env.{RoundMode, final_round}
use looping_core.Round.Workflow.Agent.{
  TaskAgent, HandleTaskDeps, TurnTaskResult, replied, delegated, failed, canceled,
}
use looping_core.Round.Workflow.Branches.{Executed, executed_all, executed_none, execute_subtasks}
use looping_core.Round.Workflow.Loop.{
  fell_through, LoopRun, round_mode, is_overdue, continue_with, after_turn, run_rounds, round_loop,
}

-- A `final` round has no `delegate` to call: what it hands out are rows that it has recovered, at no
-- turns. Round/Agent/Free shows this of `runTaskTurn`.
pub record IsFinalFree (agent : TaskAgent) : Type 0 where
  pub final_free :
      (round left t : ℕ) (w : agent.W)
      → (agent.run_task_turn round final_round left w).0 ≡ returned (delegated t)
      → t ≡ 0

module _ (agent : TaskAgent) (deps : HandleTaskDeps agent.Kind) (started : ℕ)
    (origin : agent.W) where
  open agent use {W, E, Kind, now, run_task_turn}

  -- The heads of the loop that a run from `origin` comes to: a round, the turns counted so far, the world.
  pub data Reaches : ℕ → ℕ → W → Type 0 where
    begin : Reaches 0 0 origin
    another :
        {round used at t : ℕ} {w w₁ w₂ w₃ : W}
        → Reaches round used w
        → now w ≡ (returned at, w₁)
        → run_task_turn round
            (round_mode deps.max_turns used (is_overdue agent deps started at))
            (deps.max_turns - used)
            w₁
          ≡ (returned (delegated t), w₂)
        → execute_subtasks agent round w₂ ≡ (returned executed_all, w₃)
        → Reaches (round + 1) (used + t) w₃

  -- A round of the run that delegated at no turns.
  pub record HasRecovered : Type 0 where
    pub round : ℕ
    pub used : ℕ
    pub at : ℕ
    pub before : W
    pub world : W
    pub reached : Reaches round used before
    pub clock : now before ≡ (returned at, world)
    pub free :
        (run_task_turn round
          (round_mode deps.max_turns used (is_overdue agent deps started at))
          (deps.max_turns - used)
          world).0
        ≡ returned (delegated 0)

  -- Not the line behind the loop, or a round was recovered.
  abbrev Ends : Outcome E (LoopRun Kind) → Type 0
  Ends (returned r) = (r.end ≢ fell_through) ⊎ HasRecovered
  Ends (threw e) = Unit

  recovered_Ends : (o : Outcome E (LoopRun Kind)) → HasRecovered → Ends o
  recovered_Ends (returned r) h = inr h
  recovered_Ends (threw e) h = tt

  after_turn-Ends :
      (round used : ℕ) (next : ℕ → Step W E (LoopRun Kind)) (turn : TurnTaskResult Kind) (w : W)
      → ((t : ℕ) (w' : W)
          → turn ≡ delegated t
          → execute_subtasks agent round w ≡ (returned executed_all, w')
          → Ends (next (used + t) w').0)
      → Ends (after_turn agent deps round used next turn w).0
  unfolding after_turn continue_with
  after_turn-Ends round used next (canceled t) w k = inl (λ e. cc)
  after_turn-Ends round used next (failed kind e t) w k = inl (λ e. cc)
  after_turn-Ends round used next (replied x t) w k = inl (λ e. cc)
  after_turn-Ends round used next (delegated t) w k =
      >>=-ends Ends (execute_subtasks agent round)
        (continue_with agent deps (used + t) (next (used + t))) w (λ e. tt) ran
    where
      ran :
          (x : Executed) (w' : W)
          → execute_subtasks agent round w ≡ (returned x, w')
          → Ends (continue_with agent deps (used + t) (next (used + t)) x w').0
      ran executed_all w' h = k t w' refl h
      ran executed_none w' h = inl (λ e. cc)

  module _ (finals : IsFinalFree agent) where
    turn_spends :
        (overdue : Bool) (round used t : ℕ) (w : W)
        → (run_task_turn round (round_mode deps.max_turns used overdue) (deps.max_turns - used) w).0
          ≡ returned (delegated (suc t))
        → used < deps.max_turns
    unfolding round_mode
    turn_spends overdue round used t w h = elim (Bool-cases (leb deps.max_turns used || overdue)) [
      | inl last ↦
          absurd (let free = finals.final_free round _ (suc t) w (rw last at h) in omega arith)
      | inr open_still ↦ ground arith
    ]

    -- A round that delegated was recovered, or spent a turn of those that were left.
    goes_on :
        (left round used at t : ℕ) (w w₁ : W) (rest : ℕ → Outcome E (LoopRun Kind))
        → round + suc left ≡ suc deps.max_turns
        → round ≤ used
        → Reaches round used w
        → now w ≡ (returned at, w₁)
        → (run_task_turn round
            (round_mode deps.max_turns used (is_overdue agent deps started at))
            (deps.max_turns - used)
            w₁).0
          ≡ returned (delegated t)
        → (round + 1 ≤ deps.max_turns → round + 1 ≤ used + t → Ends (rest (used + t)))
        → Ends (rest (used + t))
    goes_on left round used at zero w w₁ rest r u reached clock h k =
        recovered_Ends (rest (used + 0)) record {
          round = round;
          used = used;
          at = at;
          before = w;
          world = w₁;
          reached = reached;
          clock = clock;
          free = h;
        }
    goes_on left round used at (suc t) w w₁ rest r u reached clock h k =
        let under = turn_spends (is_overdue agent deps started at) round used t w₁ h in
        k (omega arith) (omega arith)

    run_rounds-Ends :
        (left round used : ℕ) (w : W)
        → round + left ≡ suc deps.max_turns
        → round ≤ deps.max_turns
        → round ≤ used
        → Reaches round used w
        → Ends (run_rounds agent deps started left round used w).0
    unfolding run_rounds
    run_rounds-Ends zero round used w r m u reached = absurd (omega arith)
    run_rounds-Ends (suc left) round used w r m u reached =
        let later : ℕ → Step W E (LoopRun Kind) =
          λ used'. run_rounds agent deps started left (round + 1) used' in
        let mode : ℕ → RoundMode =
          λ at. round_mode deps.max_turns used (is_overdue agent deps started at) in
        let decide : ℕ → Step W E (TurnTaskResult Kind) =
          λ at. run_task_turn round (mode at) (deps.max_turns - used) in
        >>=-ends Ends now (λ at. decide at >>= after_turn agent deps round used later) w (λ e. tt)
          λ at w₁ clock.
            >>=-ends Ends (decide at) (after_turn agent deps round used later) w₁ (λ e. tt)
              λ turn w₂ h. after_turn-Ends round used later turn w₂ λ t w₃ d ran.
                let turned : decide at w₁ ≡ (returned (delegated t), w₂) = rw⁻¹ d h in
                goes_on left round used at t w w₁ (λ used'. (later used' w₃).0) r u reached clock
                  (ap (λ x. x.0) turned)
                  (λ m' u'.
                    run_rounds-Ends left (round + 1) (used + t) w₃ (omega arith) m' u'
                      (another reached clock turned ran))

    -- With an agent whose final rounds hand out rows at no turns only: a run of the loop that falls out
    -- of its end has come to a round that delegated at no turns.
    pub round_loop-fell_through :
        (run : LoopRun Kind)
        → (round_loop agent deps started origin).0 ≡ returned run
        → run.end ≡ fell_through
        → HasRecovered
    unfolding round_loop
    round_loop-fell_through run h e =
        let ends : Ends (returned run) = subst Ends h (
          run_rounds-Ends (suc deps.max_turns) 0 0 origin (omega arith) (omega arith) (omega arith)
            begin) in
        elim ends [ inl other ↦ absurd (other e) | inr recovered ↦ recovered ]
