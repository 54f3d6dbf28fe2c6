-- ===== src/Subagent/Examples.antt =====
-- A run of src/subagent in which the model looks at a board and then answers, and the theorems about
-- runs on it.
use looping_core.Base.{
  ℕ, zero, suc, ◌≤◌, ◌*◌, String, Bool, true, false, Option, none, some, List, [], ◌∷◌, length,
  Outcome, returned, threw, is_blank, ◌==◌, ◌≡◌, refl, arith, max, ◌<◌, ◌+◌,
}
use looping_core.Contract.Examples.{chess, policy, valid_chess, chess_accepted}
use looping_core.Contract.Recipe.{RecipeFault}
use looping_core.Subagent.Messages.{
  Message, user, assistant, tool, tool_result, text, json, whole, window_messages,
  elide_tool_outputs, keep_width,
}
use looping_core.Subagent.Window.{Windowed, window_messages-Windowed}
use looping_core.Subagent.Retention.{turns, Retains}
use looping_core.Subagent.Retention.Elision.{elide_tool_outputs-Retains}
use looping_core.Subagent.Prompt.{Assignment}
use looping_core.Subagent.Env.{
  ModelRun, SubagentEnv, ChunkRunDeps, RecipeExecutionResult, completed, done,
}
use looping_core.Subagent.Chunk.{run_resumable_chunk}
use looping_core.Subagent.Ends.{Ends, run_resumable_chunk-Ends}
use looping_core.Subagent.Spend.{run_resumable_chunk-spent}
use looping_core.Subagent.Rolling.{KeepsWindow, run_resumable_chunk-KeepsWindow}
use looping_core.Subagent.Execution.{RecipeRunDeps, chunk_deps, drive_chunks, run_recipe_execution}
use looping_core.Subagent.Finish.{IsConcluded, run_recipe_execution-IsConcluded}
use looping_core.Subagent.Facet.{Facet, SubagentRuntime, run_deps, execute_chunk}
use looping_core.Subagent.Replay.{execute_chunk-replays}
use looping_core.Subagent.Durable.{as_observed, midway, IsRunnable, ask_chunks, ask_chunks-refines}

abbrev view : ℕ → Message ℕ
view size =
    tool (tool_result (record { call_id = "c"; tool_name = "look"; output = json size }) ∷ [])

abbrev talk : List (Message ℕ)
talk = assistant 1 ∷ view 900 ∷ assistant 2 ∷ view 800 ∷ []

windowed : window_messages (user "go" ∷ talk) 1 ≡ user "go" ∷ assistant 2 ∷ view 800 ∷ []
unfolding window_messages
windowed = refl

abbrev stub : Message ℕ
stub = tool (
    tool_result (record {
      call_id = "c";
      tool_name = "look";
      output = text "[output from an earlier turn, trimmed to save context]";
    })
    ∷ [])

elided : elide_tool_outputs some talk (whole 0) ≡ assistant 1 ∷ stub ∷ assistant 2 ∷ view 800 ∷ []
unfolding elide_tool_outputs
elided = refl

window_messages-Windowed_example :
    Windowed (user "go") talk 1 (window_messages (user "go" ∷ talk) 1)
window_messages-Windowed_example = window_messages-Windowed (user "go") talk 1 (omega arith)

elide_tool_outputs-Retains_example :
    Retains some (keep_width (whole 1)) (turns talk) talk (elide_tool_outputs some talk (whole 1))
elide_tool_outputs-Retains_example = elide_tool_outputs-Retains some talk (whole 1)

-- The world counts the model calls; the first looks, the second answers.
abbrev play_once : ℕ → ModelRun ℕ Bool
play_once zero = record {
  steps = (assistant 1 ∷ view 900 ∷ []) ∷ [];
  result = returned (record { finish_reason = "tool-calls"; text = "" });
}
play_once (suc n) = record {
  steps = (assistant 2 ∷ []) ∷ [];
  result = returned (record { finish_reason = "stop"; text = " White wins. " });
}

one_step : (n : ℕ) → length (play_once n).steps ≡ 1
one_step zero = refl
one_step (suc n) = refl

abbrev env : SubagentEnv
env = record {
  World = ℕ;
  Json = ℕ;
  E = Bool;
  Kind = Unit;
  ProgressEvent = Unit;
  json_size = some;
  now = λ w. (w * 1000, w);
  aborted = λ w. w == 99;
  now-aborted = λ w. refl;
  progress = λ w. [];
  clear_progress = λ w. w;
  generate = λ slot c w. (play_once w, suc w);
  steps_within = λ slot c w pos. omega (arith, one_step w, pos);
  steps_made = λ slot c w r h. omega (arith, one_step w);
  show_error = λ e. "error";
  show_kind = λ k. "credential";
  non_recoverable_kind = λ e. none;
  is_transient = λ e. e;
}

abbrev request : Assignment
request = record {
  task_id = "t";
  subtask_id = 1;
  type = "chess";
  prompt = "Find the winning move.";
  references = [];
  params = [];
}

abbrev runtime : SubagentRuntime
runtime = record {
  policy = policy;
  validate_params = λ type params. none;
  tool_output_window = whole 3;
  fault_text = λ recipe fault. "unusable recipe";
  fingerprint = λ request recipe. request.task_id;
}

abbrev run : RecipeRunDeps
run = run_deps runtime valid_chess

abbrev each : ChunkRunDeps
each = chunk_deps run request valid_chess

abbrev won : RecipeExecutionResult
won =
    completed ("White wins.\n\n---\nRan 2 model turn(s) across 2 model call(s) in 2s." ∷ []) "large"

prompt_full : is_blank request.prompt ≡ false
unfolding looping_core.Base.is_blank
prompt_full = refl

wins : run_recipe_execution env run request chess 0 ≡ (returned won, 2)
unfolding run_recipe_execution looping_core.Base.is_blank looping_core.Base.trim
    looping_core.Base.show looping_core.Contract.Recipe.validate_recipe run_resumable_chunk run_deps
wins = refl

run_resumable_chunk-Ends_example : Ends env each 0 (run_resumable_chunk env none each 0)
run_resumable_chunk-Ends_example = run_resumable_chunk-Ends env none each 0

run_resumable_chunk-spent_example :
    ((run_resumable_chunk env none each 0).1.state.turns ≤ max 0 (suc each.limits.max_turns))
    × ((run_resumable_chunk env none each 0).1.state.llm_calls ≤ 4)
run_resumable_chunk-spent_example = run_resumable_chunk-spent env none each 0

history_kept : 1 ≤ each.history_window
unfolding chunk_deps looping_core.Contract.Recipe.stamp
history_kept = omega arith

run_resumable_chunk-KeepsWindow_example :
    KeepsWindow env each (run_resumable_chunk env none each 0).1
run_resumable_chunk-KeepsWindow_example =
    run_resumable_chunk-KeepsWindow env none each 0 history_kept tt

run_recipe_execution-IsConcluded_example :
    IsConcluded env (run_recipe_execution env run request chess 0).0
run_recipe_execution-IsConcluded_example =
    run_recipe_execution-IsConcluded env run request chess 0 prompt_full

abbrev runnable : IsRunnable env runtime request chess valid_chess
runnable = record { accepted = chess_accepted; prompted = prompt_full; with_params = refl }

ask_chunks-refines_example :
    ask_chunks env 8 8 runtime request chess (midway env "t" none) 0
    ≡ as_observed env (drive_chunks env 8 8 each none 0)
ask_chunks-refines_example =
    ask_chunks-refines env 8 8 runtime request chess valid_chess none 0 runnable

abbrev won_at_once : RecipeExecutionResult
won_at_once =
    completed ("White wins.\n\n---\nRan 1 model turn(s) across 1 model call(s) in 1s." ∷ []) "large"

abbrev fresh_child : Facet ℕ
fresh_child = midway env "t" none

abbrev child_after : Facet ℕ
child_after = (execute_chunk env runtime request chess fresh_child 1).1.0

won_first :
    execute_chunk env runtime request chess fresh_child 1
    ≡ (returned (done won_at_once []), (child_after, 2))
unfolding execute_chunk looping_core.Base.is_blank looping_core.Base.trim looping_core.Base.show
    looping_core.Contract.Recipe.validate_recipe run_resumable_chunk run_deps chunk_deps
won_first = refl

execute_chunk-replays_example :
    execute_chunk env runtime request chess child_after 7
    ≡ (returned (done won_at_once []), (child_after, 7))
execute_chunk-replays_example =
    execute_chunk-replays env runtime request chess fresh_child 1 won_at_once [] child_after 2 7
      won_first
