-- ===== src/Round/Workflow/Examples.antt =====
-- Tasks of src/round/workflow.ts run on scripted agents, and the theorems at those runs.
use looping_core.Base.{
  ℕ, ◌+◌, ◌≤◌, String, Bool, true, List, [], ◌∷◌, none, ◌≡◌, refl, sym, arith, max, any, ◌==◌,
  if◌then◌else◌, returned, threw, ◌⊎◌,
}
use looping_core.Base.Step.{Step}
use looping_core.A2a.Deliver.{
  step_fault, already_terminal, completed_task, DeliverTerminalOptions, deliver_terminal_task,
}
use looping_core.Round.Turn.Env.{RoundMode, open_round, final_round}
use looping_core.Round.Workflow.Agent.{
  TurnTaskResult, replied, delegated, scan_ids, TaskAgent, HandleTaskDeps,
}
use looping_core.Round.Workflow.Branches.{run_branch, execute_subtasks}
use looping_core.Round.Workflow.Loop.{fell_through, round_loop}
use looping_core.Round.Workflow.Handle.{orchestrate, run_handle_task}
use looping_core.Round.Workflow.Ends.{IsFinalFree, HasRecovered, round_loop-fell_through}
use looping_core.Round.Workflow.Cost.{IsFrugal, cost, Within, round_loop-Within}
use looping_core.Round.Workflow.Terminal.{IsSettling, Settled, run_branch-Settled}
use looping_core.Round.Workflow.Delivery.{
  run_handle_task_throws, deliver_terminal_task-posts, IsExplained,
  deliver_terminal_task-IsExplained,
}

-- Steps on a log of numbers: each row that ends is put on it.
abbrev Log : Type 0
Log = List ℕ

abbrev yields : {A : Type 0} → A → Step Log String A
yields a w = (returned a, w)

abbrev breaks : {A : Type 0} → String → Step Log String A
breaks e w = (threw e, w)

abbrev settles : {A : Type 0} → A → ℕ → Step Log String A
settles a id w = (returned a, id ∷ w)

-- A delivery that saves under this verdict, sweeps, and posts.
abbrev delivery_of : Bool → Step Log String (Unit {0}) → DeliverTerminalOptions Log String
delivery_of applied post = record {
  save_task = λ task. yields applied;
  sweep = breaks "sweep";
  notify = λ task. post;
}

abbrev agent_of :
    (ℕ → RoundMode → TurnTaskResult ℕ)
    → (ℕ → Step Log String Bool)
    → (ℕ → Step Log String (Unit {0}))
    → DeliverTerminalOptions Log String
    → TaskAgent
agent_of turn chunk fail delivery = record {
  W = Log;
  E = String;
  Kind = ℕ;
  mark_working = yields true;
  now = yields 5;
  run_task_turn = λ round mode left. yields (turn round mode);
  scan_subtasks = λ round. yields (scan_ids []);
  cancel_pending_subtasks = yields tt;
  execute_subtask_chunk = λ id n. chunk id;
  fail_subtask = fail;
  delivery = delivery;
}

abbrev deps : HandleTaskDeps ℕ
deps = record {
  max_turns = 2;
  max_wall_ms = 100;
  task_failed = "Sorry.";
  failure_copy = λ kind e. none;
}

-- An agent that delegates whenever it may, at one turn for each round.
abbrev busy_turn : ℕ → RoundMode → TurnTaskResult ℕ
busy_turn round open_round = delegated 1
busy_turn round final_round = replied "done" 1

abbrev busy : TaskAgent
busy = agent_of busy_turn (settles true) (settles tt) (delivery_of true (yields tt))

busy-IsFinalFree : IsFinalFree busy
busy-IsFinalFree = record { final_free = λ round left t w h. absurd (cc) }

-- A round costs one turn.
busy-IsFrugal : IsFrugal busy
busy-IsFrugal = record { within = within }
  where
    within :
        (round : ℕ) (mode : RoundMode) (left : ℕ) (w : Log) (r : TurnTaskResult ℕ)
        → (busy.run_task_turn round mode left w).0 ≡ returned r
        → cost r ≤ max 2 (left + 1)
    within round open_round left w r h =
        let same : delegated 1 ≡ r = cc in rw (sym same) (omega arith)
    within round final_round left w r h =
        let same : replied "done" 1 ≡ r = cc in rw (sym same) (omega arith)

round_loop-Within_example : Within busy deps (2 + 3) (round_loop busy deps 5 []).0
round_loop-Within_example = round_loop-Within busy deps busy-IsFinalFree busy-IsFrugal 5 []

-- An agent whose first round is recovered from its rows.
abbrev recovered_turn : ℕ → RoundMode → TurnTaskResult ℕ
recovered_turn round open_round = delegated (if round == 0 then 0 else 1)
recovered_turn round final_round = replied "done" 1

abbrev recovered : TaskAgent
recovered = agent_of recovered_turn (settles true) (settles tt) (delivery_of true (yields tt))

recovered-IsFinalFree : IsFinalFree recovered
recovered-IsFinalFree = record { final_free = λ round left t w h. absurd (cc) }

recovered_falls :
    (round_loop recovered deps 5 []).0 ≡ returned (record { end = fell_through; turns_used = 2 })
unfolding round_loop execute_subtasks
recovered_falls = refl

round_loop-fell_through_example : HasRecovered recovered deps 5 []
round_loop-fell_through_example =
    round_loop-fell_through recovered deps 5 [] recovered-IsFinalFree
      (record { end = fell_through; turns_used = 2 }) recovered_falls refl

abbrev Logged : ℕ → Log → Type 0
Logged id w = any (λ k. k == id) w ≡ true

logged : (id : ℕ) (w : Log) → Logged id (id ∷ w)
logged id w = ground arith

busy-IsSettling : IsSettling busy Logged
busy-IsSettling = record {
  done_settles = λ id chunk w h. logged id w;
  fail_settles = logged;
  fail_returns = λ id w. refl;
}

run_branch-Settled_example : Settled busy Logged 3 (run_branch busy 3 [])
run_branch-Settled_example = run_branch-Settled busy Logged busy-IsSettling 3 []

-- An agent that cannot be reached, and one whose callback cannot be posted.
abbrev unreached : TaskAgent
unreached = record busy { mark_working = breaks "down" }

unreached_throws : (orchestrate unreached deps []).0 ≡ threw (step_fault "down")
unfolding orchestrate
unreached_throws = refl

abbrev mute : TaskAgent
mute = agent_of busy_turn (settles true) (settles tt) (delivery_of true (breaks "post"))

mute_task_throws : (run_handle_task mute deps []).0 ≡ threw (step_fault "post")
unfolding run_handle_task execute_subtasks
mute_task_throws = refl

run_handle_task_throws_example :
    (e : String) × (step_fault "post" ≡ step_fault e)
    × (((orchestrate mute deps []).0 ≡ threw (step_fault e))
        ⊎ ((orchestrate mute deps []).0 ≡ threw (already_terminal e)))
run_handle_task_throws_example =
    run_handle_task_throws mute deps [] (step_fault "post") mute_task_throws

deliver_terminal_task-posts_example :
    deliver_terminal_task (delivery_of true (breaks "post")) (completed_task "done") []
    ≡ (threw (already_terminal "post"), [])
deliver_terminal_task-posts_example =
    deliver_terminal_task-posts (delivery_of true (breaks "post")) (completed_task "done") [] []
      refl

deliver_terminal_task-IsExplained_example :
    let o = delivery_of true (breaks "post") in
    IsExplained o
      (completed_task "done")
      (o.save_task (completed_task "done") [])
      (deliver_terminal_task o (completed_task "done") []).0
deliver_terminal_task-IsExplained_example =
    deliver_terminal_task-IsExplained (delivery_of true (breaks "post")) (completed_task "done") []
