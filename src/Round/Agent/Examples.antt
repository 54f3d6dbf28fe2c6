-- ===== src/Round/Agent/Examples.antt =====
-- Rounds of src/round/agent.ts over a Session and two tables in memory.
use looping_core.Base.{◌+◌, ◌≤◌, max, true, false, List, [], ◌∷◌, ◌≡◌, refl}
use looping_core.Agent.History.{
  Role, SessionMessage, deterministic_session_message, final_reply_message_id,
}
use looping_core.Db.Tasks.Table.{submitted, canceled}
use looping_core.Db.Tasks.Examples.{rows_table as task_table, row_in, Rows, row_of}
use looping_core.Db.Subtasks.Table.{Subtask}
use looping_core.Db.Subtasks.Examples.{rows_table as subtask_table, first_row}
use looping_core.Round.Turn.Env.{RoundEnv, open_round, final_round}
use looping_core.Round.Turn.Examples.{two_models, calls_reply, args_of, equipped, source_tools}
use looping_core.Round.Agent.{TurnInput, World, is_task_canceled, run_task_turn}
use looping_core.Round.Agent.Free.{IsFree, run_task_turn-IsFree}
use looping_core.Round.Agent.Recovery.{run_task_turn-spent, run_task_turn-rows}

abbrev models : RoundEnv
models = two_models (calls_reply "") (calls_reply "done")

abbrev input : TurnInput
input = record {
  args = args_of 0 open_round [];
  now = 1;
  max_subtasks = 8;
  recovered_reply = "Working on it.";
}

abbrev world_of : List SessionMessage → List Subtask → World models task_table subtask_table
world_of messages rows = record {
  conversation = messages;
  task_rows = row_in submitted ∷ [];
  subtask_rows = rows;
}

abbrev quiet : Rows → Rows
quiet s = s

abbrev cancels : Rows → Rows
cancels s = row_in canceled ∷ s

abbrev final_reply : SessionMessage
final_reply = deterministic_session_message (final_reply_message_id "t") Role.assistant "done"

still_live : is_task_canceled task_table "t" (row_in submitted ∷ []) ≡ false
unfolding is_task_canceled row_of
still_live = refl

run_task_turn-spent_example :
    (run_task_turn models task_table subtask_table quiet input 3 (world_of [] [])).budget.spent
    ≤ max 2 (3 + 1)
run_task_turn-spent_example =
    run_task_turn-spent models task_table subtask_table quiet input 3 (world_of [] [])

-- A final round whose rows are there already.
abbrev last_input : TurnInput
last_input = record input { args = args_of 0 final_round [] }

run_task_turn-IsFree_example :
    let d = run_task_turn equipped task_table subtask_table quiet last_input 0 (record {
      conversation = [];
      task_rows = row_in submitted ∷ [];
      subtask_rows = first_row ∷ [];
    }) in
    IsFree equipped task_table subtask_table quiet d.outcome d.budget.spent
run_task_turn-IsFree_example =
    run_task_turn-IsFree equipped task_table subtask_table quiet source_tools last_input 0 _ refl
      refl

canceled_late : is_task_canceled task_table "t" (row_in canceled ∷ row_in submitted ∷ []) ≡ true
unfolding is_task_canceled row_of
canceled_late = refl

run_task_turn-rows_example :
    (run_task_turn models task_table subtask_table cancels input 3
      (world_of [] [])).world.subtask_rows
    ≡ []
run_task_turn-rows_example =
    run_task_turn-rows models task_table subtask_table cancels input 3 (world_of [] [])
      canceled_late
