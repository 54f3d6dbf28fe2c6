-- ===== src/Round/Turn/Overdue.antt =====
-- What a `final` round of src/round/turn.ts may cost where the clock forced it and turns are left.
use looping_core.Base.{
  ap, ℕ, suc, zero, ◌+◌, ◌≤◌, String, ◌&&◌, List, some, none, ◌≡◌, refl, arith, ltb, inl, inr,
  Bool-cases,
}
use looping_core.Agent.Budget.{TurnBudget}
use looping_core.Agent.Control.{ControlTool}
use looping_core.Round.Render.{ModelMessage}
use looping_core.Round.Turn.Env.{
  RoundMode, open_round, final_round, GenerateCall, Slot, primary, fallback, RoundEnv, RunTurnArgs,
}
use looping_core.Round.Turn.Ending.{failed}
use looping_core.Round.Turn.Spend.{attempt_steps-pos}
use looping_core.Round.Turn.Ladder.{
  attempt_steps, attempt, remember, retry, react, run_slot, fall_back, run_slots, Ladder, SlotEnd,
  gave_up,
}

attempt_steps-final : (m : RoundMode) (b : TurnBudget) → m ≡ final_round → attempt_steps m b ≡ 1
unfolding attempt_steps
attempt_steps-final open_round b h = cc
attempt_steps-final final_round b h = refl

module _ (env : RoundEnv) where
  open env use {Input, E, session}

  -- The slot gave up with `n` more turns spent.
  pub record Wasted (n : ℕ) (st : Ladder env) (end : SlotEnd env × Ladder env) : Type 0 where
    pub ended : end.0 ≡ gave_up
    pub spent : end.1.budget.spent ≡ st.budget.spent + n
    pub allowance : end.1.budget.allowance ≡ st.budget.allowance

  -- Each attempt takes a step and ends in a call that its tool rejects, with an error that is worth
  -- repairing.
  pub record IsRejectedAlways (args : RunTurnArgs) (control : List (ControlTool Input E))
      (i : String) : Type 0 where
    pub error : E
    pub name : String
    pub input : Input
    pub recoverable : env.non_recoverable_kind error ≡ none
    pub rejected :
        (slot : Slot) (ms : List (ModelMessage Input E)) (st : Ladder env)
        → (attempt env args control slot i ms st).0 ≡ failed error (some (name, input))
    pub works :
        (slot : Slot) (c : GenerateCall Input E) (w : session.State)
        → 1 ≤ (env.generate slot c w).0.steps

  module _ (args : RunTurnArgs) (control : List (ControlTool Input E)) (i : String)
      (bad : IsRejectedAlways args control i) (last : args.mode ≡ final_round) where
    one_step :
        (slot : Slot) (ms : List (ModelMessage Input E)) (st : Ladder env)
        → (attempt env args control slot i ms st).1.budget
          ≡ record st.budget { spent = st.budget.spent + 1 }
    unfolding attempt
    one_step slot ms st =
        ap (λ n. let b : TurnBudget = record st.budget { spent = n } in b)
          (omega (
            arith,
            env.steps_within slot _ st.world (attempt_steps-pos args.mode st.budget),
            attempt_steps-final args.mode st.budget last,
            bad.works slot _ st.world,
          ))

    -- One rejected attempt, followed by whatever the slot does next.
    react-Wasted :
        (slot : Slot) (left repair : ℕ) (ms : List (ModelMessage Input E)) (st : Ladder env)
        (again : List (ModelMessage Input E) → Ladder env → SlotEnd env × Ladder env)
        → repair + suc left ≡ 4
        → st.budget.spent + suc left ≤ st.budget.allowance
        → ((ms' : List (ModelMessage Input E)) (st' : Ladder env)
            → st'.budget.spent + left ≤ st'.budget.allowance
            → Wasted left st' (again ms' st'))
        → Wasted
            (suc left)
            st
            (react env args slot repair ms again (attempt env args control slot i ms st))
    unfolding react retry remember
    react-Wasted slot left repair ms st again r h k =
        elim (Bool-cases (ltb repair 3 && ltb (st.budget.spent + 1) st.budget.allowance)) [
          | inl more ↦
              rw
                (
                  react,
                  bad.rejected slot ms st,
                  bad.recoverable,
                  retry,
                  remember,
                  one_step slot ms st,
                  more,
                )
                (later (k _ _ (omega arith)) refl refl)
          | inr done ↦
              rw
                (
                  react,
                  bad.rejected slot ms st,
                  bad.recoverable,
                  retry,
                  remember,
                  one_step slot ms st,
                  done,
                )
                record { ended = refl; spent = ground arith; allowance = refl }
        ]
      where
        later :
            {st' : Ladder env} {end : SlotEnd env × Ladder env}
            → Wasted left st' end
            → st'.budget.spent ≡ st.budget.spent + 1
            → st'.budget.allowance ≡ st.budget.allowance
            → Wasted (suc left) st end
        later v a b = record { ended = v.ended; spent = omega arith; allowance = omega arith }

    run_slot-Wasted :
        (slot : Slot) (left repair : ℕ) (ms : List (ModelMessage Input E)) (st : Ladder env)
        → repair + left ≡ 4
        → st.budget.spent + left ≤ st.budget.allowance
        → Wasted left st (run_slot env args control slot i left repair ms st)
    unfolding run_slot
    run_slot-Wasted slot zero repair ms st r h = record {
      ended = refl;
      spent = omega arith;
      allowance = refl;
    }
    run_slot-Wasted slot (suc left) repair ms st r h =
        react-Wasted slot left repair ms st
          (λ ms' st'. run_slot env args control slot i left (repair + 1) ms' st') r h
          (λ ms' st' h'. run_slot-Wasted slot left (repair + 1) ms' st' (omega arith) h')

    fall_back-Wasted :
        (next : Ladder env → SlotEnd env × Ladder env) (st : Ladder env)
        (first : SlotEnd env × Ladder env)
        → Wasted 4 st first
        → Wasted 4 first.1 (next first.1)
        → Wasted 8 st (fall_back env next first)
    unfolding fall_back
    fall_back-Wasted next st (end, st') v u =
        rw (v.ended, fall_back)
          (record { ended = u.ended; spent = omega arith; allowance = omega arith })

    -- A final round that has spent nothing and has eight turns or more left spends eight of them on
    -- models that work a step for each call and whose every call is rejected: four attempts in each
    -- slot.
    pub final_round-spends-eight :
        (messages : List (ModelMessage Input E)) (st : Ladder env)
        → st.budget.spent ≡ 0
        → 8 ≤ st.budget.allowance
        → (run_slots env args control i messages st).1.budget.spent ≡ 8
    unfolding run_slots
    final_round-spends-eight messages st z h =
        let first_end = run_slot env args control primary i 4 0 messages st in
        let first = run_slot-Wasted primary 4 0 messages st refl (omega arith) in
        let second = run_slot-Wasted fallback 4 0 messages first_end.1 refl (omega arith) in
        let both =
          fall_back-Wasted (λ st'. run_slot env args control fallback i 4 0 messages st') st
            first_end first second in
        omega (arith, both.spent)
