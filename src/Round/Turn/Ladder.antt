-- ===== src/Round/Turn/Ladder.antt =====
-- src/round/turn.ts, `runTurn`: repairs within a slot, the fallback model after the primary.
use Prim.Native.String.{◌++◌ as ◌<>◌}
use looping_core.Base.{
  ℕ, suc, zero, ◌+◌, String, Bool, true, false, not, ◌&&◌, Option, none, some, List, [], ◌∷◌, ◌++◌,
  map, any, find_first, ltb, ◌==◌, if◌then◌else◌, show, Outcome, returned, threw,
}
use looping_core.Base.Step.{Step, ◌>>=◌, ◌>>◌, pure}
use looping_core.Agent.Budget.{TurnBudget, step_allowance}
use looping_core.Agent.History.{
  Role, SessionMessage, deterministic_session_message, task_user_message_id, round_ack_message_id,
  final_reply_message_id,
}
use looping_core.Agent.Session.{append_once}
use looping_core.Agent.Control.{ControlTool, TurnDecision, reply, delegate}
use looping_core.Round.Render.{
  ReferenceCatalogEntry, ModelMessage, rejected_call, rejection, render_turn_messages,
}
use looping_core.Round.Turn.Env.{
  RoundMode, open_round, final_round, Slot, primary, fallback, GenerateCall, GenerateResult,
  RoundEnv, RunTurnArgs, TurnFault, model_fault, storage_fault, Diagnostic, RunTurnOutcome, replied,
  delegated, unrecoverable, exhausted,
}
use looping_core.Round.Turn.Ending.{Attempt, decided, failed, read_ending}
use looping_core.Round.Turn.Join.{is_completed, join_successful_branches}

unfoldable pub is_final : RoundMode → Bool
is_final open_round = false
is_final final_round = true

-- The budget left to one attempt: one step in a final round.
unfoldable pub attempt_steps : RoundMode → TurnBudget → ℕ
unfolding step_allowance
attempt_steps final_round b = 1
attempt_steps open_round b = step_allowance b.allowance b.spent

abbrev pub max_repair_attempts : ℕ
max_repair_attempts = 3

-- The ids of a repaired exchange.
control_call_id : String → ℕ → String
control_call_id task_id round = "task_" <> (task_id <> ("_round_" <> (show round <> "_control")))

repair_call_id : String → ℕ → ℕ → String
unfolding control_call_id
repair_call_id task_id round repair = control_call_id task_id round <> ("_repair_" <> show repair)

module _ (env : RoundEnv) where
  open env use {Input, E, Kind, session, generate, no_decision, non_recoverable_kind, is_transient}

  -- What the ladder carries from attempt to attempt.
  pub record Ladder : Type 0 where
    pub world : session.State
    pub budget : TurnBudget
    pub diagnostics : List (Diagnostic E)

  pub data SlotEnd : Type 0 where
    chose : TurnDecision → SlotEnd
    blocked : Kind → E → SlotEnd
    gave_up : SlotEnd

  -- A call that threw rejected nothing.
  unfoldable pub verdict :
      List (ControlTool Input E) → Outcome E (GenerateResult Input) → Attempt Input E
  unfolding read_ending
  verdict control (returned r) = read_ending no_decision control r
  verdict control (threw e) = failed e none

  -- The call is billed for the steps that ran, whether it returned or threw.
  unfoldable pub attempt :
      RunTurnArgs
      → List (ControlTool Input E)
      → Slot
      → String
      → List (ModelMessage Input E)
      → Ladder
      → Attempt Input E × Ladder
  unfolding is_final attempt_steps verdict
  attempt args control slot instructions messages st =
      let call : GenerateCall Input E = record {
        instructions = instructions;
        messages = messages;
        work_tools = not (is_final args.mode);
        control_names = map (λ c. c.name) control;
        step_budget = attempt_steps args.mode st.budget;
      } in
      let (run, w) = generate slot call st.world in
      (
        verdict control run.result,
        record st { world = w; budget = record st.budget { spent = st.budget.spent + run.steps } },
      )

  unfoldable pub remember : Ladder → Slot → ℕ → E → Option (String × Input) → Ladder
  remember st slot repair e none = record st {
    diagnostics = st.diagnostics ++ record { slot = slot; repair = none; error = e } ∷ [];
  }
  remember st slot repair e (some _) = record st {
    diagnostics =
        st.diagnostics ++ record { slot = slot; repair = some (repair + 1); error = e } ∷ [];
  }

  repair_exchange : String → String → Input → E → List (ModelMessage Input E)
  repair_exchange id name input e = rejected_call id name input ∷ rejection id name e ∷ []

  -- A rejected call is repaired while the slot has both attempts and turns left; `again` is the next
  -- attempt of the slot.
  unfoldable pub retry :
      RunTurnArgs
      → Slot
      → ℕ
      → List (ModelMessage Input E)
      → (List (ModelMessage Input E) → Ladder → SlotEnd × Ladder)
      → Ladder
      → E
      → Option (String × Input)
      → SlotEnd × Ladder
  unfolding remember repair_exchange repair_call_id
  retry args slot repair messages again st e none = (gave_up, remember st slot repair e none)
  retry args slot repair messages again st e (some (name, input)) =
      let st' = remember st slot repair e (some (name, input)) in
      let id = repair_call_id args.task_id args.round repair in
      if ltb repair max_repair_attempts && ltb st'.budget.spent st'.budget.allowance
      then again (messages ++ repair_exchange id name input e) st'
      else (gave_up, st')

  unfoldable pub react :
      RunTurnArgs
      → Slot
      → ℕ
      → List (ModelMessage Input E)
      → (List (ModelMessage Input E) → Ladder → SlotEnd × Ladder)
      → Attempt Input E × Ladder
      → SlotEnd × Ladder
  unfolding retry
  react args slot repair messages again (decided d, st) = (chose d, st)
  react args slot repair messages again (failed e rejected, st) = elim (non_recoverable_kind e) [
    | some kind ↦ (blocked kind e, st)
    | none ↦ retry args slot repair messages again st e rejected
  ]

  -- One slot: the loop over `repair`, with the iterations that are left.
  unfoldable pub run_slot :
      RunTurnArgs
      → List (ControlTool Input E)
      → Slot
      → String
      → ℕ
      → ℕ
      → List (ModelMessage Input E)
      → Ladder
      → SlotEnd × Ladder
  unfolding react
  run_slot args control slot instructions zero repair messages st = (gave_up, st)
  run_slot args control slot instructions (suc left) repair messages st =
      react args slot repair messages
        (λ messages' st'. run_slot args control slot instructions left (repair + 1) messages' st')
        (attempt args control slot instructions messages st)

  -- Both slots, the fallback only where the primary gave up.
  unfoldable pub fall_back : (Ladder → SlotEnd × Ladder) → SlotEnd × Ladder → SlotEnd × Ladder
  fall_back next (chose d, st) = (chose d, st)
  fall_back next (blocked kind e, st) = (blocked kind e, st)
  fall_back next (gave_up, st) = next st

  unfoldable pub run_slots :
      RunTurnArgs
      → List (ControlTool Input E)
      → String
      → List (ModelMessage Input E)
      → Ladder
      → SlotEnd × Ladder
  unfolding fall_back
  run_slots args control instructions messages st =
      let attempts = suc max_repair_attempts in
      fall_back (λ st'. run_slot args control fallback instructions attempts 0 messages st')
        (run_slot args control primary instructions attempts 0 messages st)

  -- A round's end: what it returned or threw, the budget it charged, and the world it left.
  pub record TurnRun : Type 0 where
    pub outcome : Outcome (TurnFault E session.Fault) (RunTurnOutcome E Kind)
    pub budget : TurnBudget
    pub world : session.State

  unfoldable pub say :
      String → Role → String → session.State → Outcome session.Fault String × session.State
  unfolding append_once deterministic_session_message
  say id role text w = append_once session (deterministic_session_message id role text) w

  -- The completed branches, joined and stored as the final reply. `none` where there is none.
  unfoldable pub deterministic_join :
      RunTurnArgs → session.State → Option (Outcome session.Fault String × session.State)
  unfolding say is_completed join_successful_branches final_reply_message_id
  deterministic_join args w =
      if any is_completed args.branches
      then some (
          say (final_reply_message_id args.task_id) Role.assistant
            (join_successful_branches args.branches args.partial_note) w)
      else none

  -- A storage fault of the append is thrown.
  unfoldable pub close :
      (String → RunTurnOutcome E Kind)
      → TurnBudget
      → Outcome session.Fault String × session.State
      → TurnRun
  close told b (returned stored, w) = record {
    outcome = returned (told stored);
    budget = b;
    world = w;
  }
  close told b (threw f, w) = record { outcome = threw (storage_fault f); budget = b; world = w }

  unfoldable pub join_or : RunTurnArgs → Ladder → RunTurnOutcome E Kind → TurnRun
  unfolding deterministic_join close
  join_or args st failure = elim (deterministic_join args st.world) [
    | some said ↦ close replied st.budget said
    | none ↦ record { outcome = returned failure; budget = st.budget; world = st.world }
  ]

  unfoldable pub publish : RunTurnArgs → TurnDecision → Ladder → TurnRun
  unfolding say close final_reply_message_id round_ack_message_id
  publish args (reply text) st =
      close replied st.budget
        (say (final_reply_message_id args.task_id) Role.assistant text st.world)
  publish args (delegate text drafts) st =
      close (λ stored. delegated stored drafts) st.budget
        (say (round_ack_message_id args.task_id args.round) Role.assistant text st.world)

  -- Both slots gave up: a transient fault is thrown for the step to retry.
  unfoldable pub give_up : RunTurnArgs → Ladder → TurnRun
  unfolding join_or
  give_up args st = elim (find_first is_transient (map (λ d. d.error) st.diagnostics)) [
    | some e ↦ record { outcome = threw (model_fault e); budget = st.budget; world = st.world }
    | none ↦ join_or args st (exhausted args.round st.diagnostics)
  ]

  unfoldable pub settle : RunTurnArgs → SlotEnd × Ladder → TurnRun
  unfolding publish join_or give_up
  settle args (chose d, st) = publish args d st
  settle args (blocked kind e, st) = join_or args st (unrecoverable kind e)
  settle args (gave_up, st) = give_up args st

  -- Round 0 stores the user's turn first.
  unfoldable pub greet : RunTurnArgs → Step session.State session.Fault String
  unfolding say task_user_message_id
  greet args w =
      if args.round == 0
      then say (task_user_message_id args.task_id) Role.user args.text w
      else (returned args.text, w)

  -- What the models are shown: the prompt, the rendered conversation and its catalog.
  pub record RoundView : Type 0 where
    pub instructions : String
    pub messages : List (ModelMessage Input E)
    pub catalog : List ReferenceCatalogEntry

  unfoldable pub show_view : RunTurnArgs → List SessionMessage → String → RoundView
  unfolding is_final
  show_view args history prompt =
      let (messages, catalog) =
        render_turn_messages env.is_compaction history args.task_id args.branches in
      let last = if is_final args.mode then args.final_instructions else args.open_instructions in
      record {
        instructions = prompt <> (args.system_suffix <> last);
        messages = messages;
        catalog = catalog;
      }

  unfoldable pub read_view : RunTurnArgs → Step session.State session.Fault RoundView
  unfolding greet show_view
  read_view args = do
    greet args
    history ← λ w. (session.get_history w, w)
    prompt ← env.refresh_system_prompt
    pure (show_view args history prompt)

  unfoldable pub hand_out : RunTurnArgs → List ReferenceCatalogEntry → List (ControlTool Input E)
  unfolding is_final
  hand_out args catalog = env.control_tools catalog (not (is_final args.mode))

  unfoldable pub climb : RunTurnArgs → TurnBudget → RoundView → session.State → SlotEnd × Ladder
  unfolding run_slots hand_out
  climb args budget view w =
      run_slots args (hand_out args view.catalog) view.instructions view.messages
        (record { world = w; budget = budget; diagnostics = [] })

  -- A storage fault before the first attempt is thrown.
  unfoldable pub conduct :
      RunTurnArgs → TurnBudget → Outcome session.Fault RoundView × session.State → TurnRun
  unfolding climb settle
  conduct args budget (returned view, w) = settle args (climb args budget view w)
  conduct args budget (threw f, w) = record {
    outcome = threw (storage_fault f);
    budget = budget;
    world = w;
  }

  unfoldable pub run_turn : RunTurnArgs → TurnBudget → session.State → TurnRun
  unfolding read_view conduct
  run_turn args budget w = conduct args budget (read_view args w)
