-- ===== src/Round/Turn/Spend.antt =====
-- What a round costs: src/round/turn.ts against the promise of src/agent/budget.ts.
use looping_core.Base.{
  ℕ, suc, zero, ◌+◌, ◌≤◌, String, List, Option, some, none, ◌≡◌, refl, arith, max, inl, inr, ◌<◌,
  map, find_first, Outcome, returned, threw, ltb, ◌&&◌, Bool-cases, Option-cases,
}
use looping_core.Agent.Budget.{TurnBudget, new_turn_budget, step_allowance, step_allowance-pos}
use looping_core.Agent.Control.{ControlTool, reply, delegate}
use looping_core.Round.Render.{ModelMessage}
use looping_core.Round.Turn.Env.{
  RoundMode, open_round, final_round, Slot, primary, fallback, RoundEnv, RunTurnArgs,
  RunTurnOutcome, replied, delegated, unrecoverable,
}
use looping_core.Round.Turn.Ending.{Attempt, decided, failed}
use looping_core.Round.Turn.Ladder.{
  attempt_steps, attempt, remember, retry, react, run_slot, run_slots, settle, climb, close,
  deterministic_join, join_or, publish, give_up, RoundView, read_view, conduct, run_turn, Ladder,
  SlotEnd, chose, blocked, gave_up, fall_back,
}

-- One budget after another: the same allowance, and at most one turn past what is spent or allowed.
pub record Follows (b c : TurnBudget) : Type 0 where
  pub same_allowance : c.allowance ≡ b.allowance
  pub within_one : c.spent ≤ max (b.spent + 1) b.allowance

-- The same for a whole round: one turn more.
pub record Overdraws (b c : TurnBudget) : Type 0 where
  pub same : c.allowance ≡ b.allowance
  pub within_two : c.spent ≤ max (b.spent + 2) (b.allowance + 1)

pub attempt_steps-pos : (m : RoundMode) (b : TurnBudget) → 1 ≤ attempt_steps m b
unfolding attempt_steps
attempt_steps-pos final_round b = omega arith
attempt_steps-pos open_round b = step_allowance-pos b.allowance b.spent

attempt_steps-le :
    (m : RoundMode) (b : TurnBudget) → b.spent + attempt_steps m b ≤ max (b.spent + 1) b.allowance
unfolding attempt_steps step_allowance
attempt_steps-le final_round b = omega arith
attempt_steps-le open_round b = omega arith

module _ (env : RoundEnv) where
  open env use {Input, E, Kind, session, steps_within}

  attempt-Follows :
      (args : RunTurnArgs) (control : List (ControlTool Input E)) (slot : Slot) (i : String)
      (messages : List (ModelMessage Input E)) (st : Ladder env)
      → Follows st.budget (attempt env args control slot i messages st).1.budget
  unfolding attempt
  attempt-Follows args control slot i messages st = record {
    same_allowance = refl;
    within_one = omega (
      arith,
      steps_within slot _ st.world (attempt_steps-pos args.mode st.budget),
      attempt_steps-le args.mode st.budget,
    );
  }

  retry-Follows :
      (b : TurnBudget) (args : RunTurnArgs) (slot : Slot) (repair : ℕ)
      (messages : List (ModelMessage Input E))
      (again : List (ModelMessage Input E) → Ladder env → SlotEnd env × Ladder env)
      (st : Ladder env) (e : E) (rejected : Option (String × Input))
      → Follows b st.budget
      → ((ms : List (ModelMessage Input E)) (st' : Ladder env)
          → Follows b st'.budget
          → st'.budget.spent < st'.budget.allowance
          → Follows b (again ms st').1.budget)
      → Follows b (retry env args slot repair messages again st e rejected).1.budget
  unfolding retry remember
  retry-Follows b args slot repair messages again st e none f k = f
  retry-Follows b args slot repair messages again st e (some (name, input)) f k =
      elim (Bool-cases (ltb repair 3 && ltb st.budget.spent st.budget.allowance)) [
        | inl more ↦ rw more (k _ _ f (ground arith))
        | inr done ↦ rw done f
      ]

  react-Follows :
      (b : TurnBudget) (args : RunTurnArgs) (slot : Slot) (repair : ℕ)
      (messages : List (ModelMessage Input E))
      (again : List (ModelMessage Input E) → Ladder env → SlotEnd env × Ladder env)
      (tried : Attempt Input E × Ladder env)
      → Follows b tried.1.budget
      → ((ms : List (ModelMessage Input E)) (st' : Ladder env)
          → Follows b st'.budget
          → st'.budget.spent < st'.budget.allowance
          → Follows b (again ms st').1.budget)
      → Follows b (react env args slot repair messages again tried).1.budget
  unfolding react
  react-Follows b args slot repair messages again (decided d, st) f k = f
  react-Follows b args slot repair messages again (failed e rejected, st) f k =
      elim (Option-cases (env.non_recoverable_kind e)) [
        | inl recoverable ↦
            rw (recoverable, react)
              (retry-Follows b args slot repair messages again st e rejected f k)
        | inr (kind, e') ↦ rw (e', react) f
      ]

  run_slot-Follows :
      (args : RunTurnArgs) (control : List (ControlTool Input E)) (slot : Slot) (i : String)
      (left repair : ℕ) (messages : List (ModelMessage Input E)) (st : Ladder env)
      → Follows st.budget (run_slot env args control slot i left repair messages st).1.budget
  unfolding run_slot
  run_slot-Follows args control slot i zero repair messages st = omega arith
  run_slot-Follows args control slot i (suc left) repair messages st =
      react-Follows st.budget args slot repair messages
        (λ ms st'. run_slot env args control slot i left (repair + 1) ms st')
        (attempt env args control slot i messages st)
        (attempt-Follows args control slot i messages st)
        (λ ms st' f more.
          later f more (run_slot-Follows args control slot i left (repair + 1) ms st'))
    where
      later : {b c d : TurnBudget} → Follows b c → c.spent < c.allowance → Follows c d → Follows b d
      later f more g = omega arith

  -- A second slot adds one more turn at most.
  fall_back-Follows :
      (b : TurnBudget) (next : Ladder env → SlotEnd env × Ladder env)
      (first : SlotEnd env × Ladder env)
      → Follows b first.1.budget
      → ((st : Ladder env) → Follows st.budget (next st).1.budget)
      → Overdraws b (fall_back env next first).1.budget
  unfolding fall_back
  fall_back-Follows b next (chose d, st) f k = omega arith
  fall_back-Follows b next (blocked kind e, st) f k = omega arith
  fall_back-Follows b next (gave_up, st) f k = omega (arith, k st)

  run_slots-Overdraws :
      (args : RunTurnArgs) (control : List (ControlTool Input E)) (i : String)
      (messages : List (ModelMessage Input E)) (st : Ladder env)
      → Overdraws st.budget (run_slots env args control i messages st).1.budget
  unfolding run_slots
  run_slots-Overdraws args control i messages st =
      fall_back-Follows st.budget (λ st'. run_slot env args control fallback i 4 0 messages st')
        (run_slot env args control primary i 4 0 messages st)
        (run_slot-Follows args control primary i 4 0 messages st)
        (λ st'. run_slot-Follows args control fallback i 4 0 messages st')

  close-budget :
      (told : String → RunTurnOutcome E Kind) (b : TurnBudget)
      (said : Outcome session.Fault String × session.State)
      → (close env told b said).budget ≡ b
  unfolding close
  close-budget told b (returned t, w) = refl
  close-budget told b (threw f, w) = refl

  join_or-budget :
      (args : RunTurnArgs) (st : Ladder env) (o : RunTurnOutcome E Kind)
      → (join_or env args st o).budget ≡ st.budget
  unfolding join_or
  join_or-budget args st o = elim (Option-cases (deterministic_join env args st.world)) [
    | inl no_branch ↦ rw (join_or, no_branch) refl
    | inr (said, found) ↦ rw (join_or, found) (close-budget replied st.budget said)
  ]

  settle-budget :
      (args : RunTurnArgs) (end : SlotEnd env × Ladder env)
      → (settle env args end).budget ≡ end.1.budget
  unfolding settle publish give_up
  settle-budget args (chose (reply t), st) = close-budget replied st.budget _
  settle-budget args (chose (delegate t ds), st) = close-budget (λ t'. delegated t' ds) st.budget _
  settle-budget args (blocked kind e, st) = join_or-budget args st (unrecoverable kind e)
  settle-budget args (gave_up, st) =
      elim (Option-cases (find_first env.is_transient (map (λ d. d.error) st.diagnostics))) [
        | inl calm ↦ rw (give_up, calm) (join_or-budget args st _)
        | inr (e, found) ↦ rw (give_up, found) refl
      ]

  climb-Overdraws :
      (args : RunTurnArgs) (b : TurnBudget) (view : RoundView env) (w : session.State)
      → Overdraws b (climb env args b view w).1.budget
  unfolding climb
  climb-Overdraws args b view w = run_slots-Overdraws args _ _ _ _

  conduct-Overdraws :
      (args : RunTurnArgs) (b : TurnBudget)
      (r : Outcome session.Fault (RoundView env) × session.State)
      → Overdraws b (conduct env args b r).budget
  unfolding conduct
  conduct-Overdraws args b (returned view, w) =
      rw (settle-budget args (climb env args b view w)) (climb-Overdraws args b view w)
  conduct-Overdraws args b (threw f, w) = omega arith

  run_turn-Overdraws :
      (args : RunTurnArgs) (b : TurnBudget) (w : env.session.State)
      → Overdraws b (run_turn env args b w).budget
  unfolding run_turn
  run_turn-Overdraws args b w = conduct-Overdraws args b (read_view env args w)

  -- What a round charges, on every ending, those that failed and threw included: one turn more than
  -- its allowance at most, and two turns where the allowance is used up.
  pub run_turn-spent :
      (args : RunTurnArgs) (allowance : ℕ) (w : env.session.State)
      → (run_turn env args (new_turn_budget allowance) w).budget.spent ≤ max 2 (allowance + 1)
  unfolding new_turn_budget
  run_turn-spent args allowance w =
      omega (arith, run_turn-Overdraws args (new_turn_budget allowance) w)
