-- ===== src/Round/Turn/Examples.antt =====
-- Rounds of src/round/turn.ts run on concrete models, and the theorems at those runs.
use looping_core.Base.{
  ℕ, ◌≤◌, String, false, List, [], ◌∷◌, none, some, ◌≡◌, refl, arith, str_eq, if◌then◌else◌, Option,
  Outcome, returned, threw, max, ◌+◌,
}
use looping_core.Agent.Budget.{new_turn_budget}
use looping_core.Agent.Control.{ControlTool, TurnDecision, reply}
use looping_core.Agent.Examples.{memory}
use looping_core.Agent.History.{SessionMessage}
use looping_core.Agent.Session.{SessionStore}
use looping_core.Subtasks.Types.{CompositionBranch, completed}
use looping_core.Round.Render.{ModelMessage}
use looping_core.Round.Turn.Env.{
  RoundMode, open_round, final_round, Slot, primary, fallback, GenerateResult, RoundEnv,
  RunTurnArgs, model_fault, storage_fault,
}
use looping_core.Round.Turn.Ending.{failed}
use looping_core.Round.Turn.Join.{is_completed}
use looping_core.Round.Turn.Ladder.{attempt, run_slot, run_slots, run_turn, Ladder}
use looping_core.Round.Turn.Spend.{run_turn-spent}
use looping_core.Round.Turn.Rescue.{run_turn-IsRescued, run_turn-IsStored, IsRescued, IsStored}
use looping_core.Agent.ControlTools.{ControlEnv, control_tools}
use looping_core.Round.Turn.Final.{IsAnswered, run_turn-IsAnswered}
use looping_core.Round.Turn.Overdue.{IsRejectedAlways, final_round-spends-eight}

-- A model that answers in words, in a call with this input, or with a fault.
abbrev pub calls_reply : String → Outcome String (GenerateResult String)
calls_reply input = returned (record {
  tool_calls = record { tool_name = "final_reply"; input = input } ∷ [];
  finish_reason = "tool-calls";
  text_length = 0;
})

abbrev pub read_reply : String → Outcome String TurnDecision
read_reply text = if str_eq text "" then threw "blank" else returned (reply text)

abbrev pub pick : List String → Outcome String String
pick (x ∷ []) = returned x
pick xs = threw "more than one call"

abbrev pub reply_tool : ControlTool String String
reply_tool = record { name = "final_reply"; precedence = 0; select = pick; parse = read_reply }

abbrev pub answers :
    Outcome String (GenerateResult String)
    → Outcome String (GenerateResult String)
    → Slot
    → Outcome String (GenerateResult String)
answers one two primary = one
answers one two fallback = two

-- Two models, each of which takes one step and gives the same answer whenever it is called.
abbrev pub two_models :
    Outcome String (GenerateResult String) → Outcome String (GenerateResult String) → RoundEnv
two_models one two = record {
  Input = String;
  E = String;
  Kind = ℕ;
  session = memory;
  refresh_system_prompt = λ w. (returned "You are an agent.", w);
  generate = λ slot c w. (record { steps = 1; result = answers one two slot }, w);
  steps_within = λ slot c w h. h;
  no_decision = λ reason n. reason;
  non_recoverable_kind = λ e. if str_eq e "paused" then some 7 else none;
  is_transient = λ e. str_eq e "busy";
  is_compaction = λ m. false;
  control_tools = λ catalog can_delegate. reply_tool ∷ [];
}

abbrev branch : CompositionBranch
branch = record {
  subtask_id = 1;
  round = 0;
  ordinal = 0;
  type = "search";
  prompt = "find it";
  params = [];
  status = completed;
  result_parts = some ("found" ∷ []);
  error = none;
}

abbrev pub args_of : ℕ → RoundMode → List CompositionBranch → RunTurnArgs
args_of round mode branches = record {
  task_id = "t";
  round = round;
  text = "hi";
  mode = mode;
  system_suffix = "";
  open_instructions = "";
  final_instructions = "";
  branches = branches;
  partial_note = "Some parts are missing.";
}

run_turn-spent_example :
    (run_turn
      (two_models (calls_reply "") (calls_reply "done"))
      (args_of 0 open_round [])
      (new_turn_budget 3)
      []).budget.spent
    ≤ max 2 (3 + 1)
run_turn-spent_example =
    run_turn-spent (two_models (calls_reply "") (calls_reply "done")) (args_of 0 open_round []) 3 []

run_turn-IsRescued_example :
    let env = two_models (calls_reply "") (threw "paused") in
    IsRescued env
      (run_turn env (args_of 1 final_round (branch ∷ [])) (new_turn_budget 2) []).outcome
unfolding is_completed
run_turn-IsRescued_example =
    run_turn-IsRescued (two_models (calls_reply "") (threw "paused"))
      (args_of 1 final_round (branch ∷ [])) (new_turn_budget 2) [] refl

busy_round :
    (run_turn
      (two_models (threw "busy") (calls_reply ""))
      (args_of 1 open_round [])
      (new_turn_budget 2)
      []).outcome
    ≡ threw (model_fault "busy")
unfolding run_turn run_slot attempt new_turn_budget
busy_round = refl

read-nothing :
    (o : Option SessionMessage)
    → (let read : Outcome String (Option SessionMessage) = returned none in read ≡ returned o)
    → o ≡ none
read-nothing o h = cc

never_written :
    ¬ (let written : Outcome String (Unit {0}) = threw "no storage" in written ≡ returned tt)
never_written h = cc

-- A Session whose storage takes no message.
abbrev read_only : SessionStore
read_only = record {
  State = Unit {0};
  Fault = String;
  append_message = λ m s. (threw "no storage", s);
  get_message = λ k s. returned none;
  get_history = λ s. returned [];
  rows = λ k s. none;
  get_rows = λ k s o h. read-nothing o h;
  append_new = λ m s h ok. absurd (never_written ok);
  append_existing = λ m old s h. refl;
  append_other = λ m k s h. refl;
}

abbrev unwritable : RoundEnv
unwritable = record {
  Input = String;
  E = String;
  Kind = ℕ;
  session = read_only;
  refresh_system_prompt = λ w. (returned "You are an agent.", w);
  generate = λ slot c w. (record { steps = 1; result = calls_reply "done" }, w);
  steps_within = λ slot c w h. h;
  no_decision = λ reason n. reason;
  non_recoverable_kind = λ e. none;
  is_transient = λ e. false;
  is_compaction = λ m. false;
  control_tools = λ catalog can_delegate. reply_tool ∷ [];
}

-- The fault of the final reply's append leaves the round.
unwritable_round :
    (let run = run_turn unwritable (args_of 1 open_round []) (new_turn_budget 2) tt in run.outcome)
    ≡ threw (storage_fault "no storage")
unfolding run_turn run_slot attempt new_turn_budget
unwritable_round = refl

run_turn-IsStored_example :
    let env = two_models (threw "paused") (calls_reply "") in
    let run = run_turn env (args_of 1 open_round (branch ∷ [])) (new_turn_budget 2) [] in
    IsStored env (args_of 1 open_round (branch ∷ [])) run.outcome run.world
run_turn-IsStored_example =
    run_turn-IsStored (two_models (threw "paused") (calls_reply ""))
      (args_of 1 open_round (branch ∷ [])) (new_turn_budget 2) []

abbrev start : (env : RoundEnv) → env.session.State → Ladder env
start env w = record { world = w; budget = new_turn_budget 9; diagnostics = [] }

abbrev paused : RoundEnv
paused = two_models (threw "paused") (calls_reply "done")

abbrev blank : RoundEnv
blank = two_models (calls_reply "") (calls_reply "")

first_try_fails :
    attempt paused (args_of 1 open_round []) (reply_tool ∷ []) primary "" [] (start paused []) ≡ (
      failed "paused" none,
      record (start paused []) { budget = record (new_turn_budget 9) { spent = 1 } },
    )
unfolding attempt new_turn_budget
first_try_fails = refl

blank_rejected :
    (slot : Slot) (ms : List (ModelMessage String String)) (st : Ladder blank)
    → (attempt blank (args_of 1 final_round []) (reply_tool ∷ []) slot "" ms st).0
      ≡ failed "blank" (some ("final_reply", ""))
unfolding attempt
blank_rejected primary ms st = refl
blank_rejected fallback ms st = refl

blank-IsRejectedAlways : IsRejectedAlways blank (args_of 1 final_round []) (reply_tool ∷ []) ""
blank-IsRejectedAlways = record {
  error = "blank";
  name = "final_reply";
  input = "";
  recoverable = refl;
  rejected = blank_rejected;
  works = λ slot c w. omega arith;
}

final_round-spends-eight_example :
    (run_slots blank
      (args_of 1 final_round [])
      (reply_tool ∷ [])
      ""
      []
      (start blank [])).1.budget.spent
    ≡ 8
unfolding new_turn_budget
final_round-spends-eight_example =
    final_round-spends-eight blank (args_of 1 final_round []) (reply_tool ∷ []) ""
      blank-IsRejectedAlways refl [] (start blank []) refl (omega arith)

abbrev pub texts : String → Outcome String String
texts text = if str_eq text "" then threw "text: must not be blank" else returned text

-- Schemas that accept any text, with one installed type.
abbrev pub source_tools : ControlEnv String String
source_tools = record {
  read_reply = texts;
  read_proposal = λ text. returned (record { reply = text; subtasks = [] });
  validate_params = λ type params. returned [];
  type_count = 1;
  control_error = λ text. text;
  resolve_error = λ fault. "unresolved";
  absent = "";
}

-- The primary calls `delegate`, which a final round does not offer.
abbrev pub calls_delegate : Outcome String (GenerateResult String)
calls_delegate = returned (record {
  tool_calls = record { tool_name = "delegate"; input = "On it." } ∷ [];
  finish_reason = "tool-calls";
  text_length = 0;
})

abbrev pub equipped : RoundEnv
equipped = record (two_models calls_delegate (calls_reply "done")) {
  control_tools = control_tools source_tools;
}

run_turn-IsAnswered_example :
    IsAnswered equipped
      (run_turn equipped (args_of 2 final_round []) (new_turn_budget 0) []).outcome
run_turn-IsAnswered_example =
    run_turn-IsAnswered equipped source_tools (args_of 2 final_round []) (new_turn_budget 0) [] refl
      refl
