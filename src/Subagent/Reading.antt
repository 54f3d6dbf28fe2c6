-- ===== src/Subagent/Reading.antt =====
-- src/subagent/run.ts: what one model call of a chunk tells of the signal and of the turns made.
use looping_core.Base.{
  ℕ, ◌+◌, ◌≤◌, ◌<◌, true, false, List, [], ◌∷◌, length, Outcome, returned, threw, str_eq, is_blank,
  ◌≡◌, refl, arith, Bool-cases, inl, inr,
}
use looping_core.Round.Turn.Env.{Slot}
use looping_core.Subagent.Messages.{Message}
use looping_core.Subagent.Env.{SubagentEnv, ModelResult, ChunkRunDeps, Chunk}
use looping_core.Subagent.Attempt.{
  ChunkAttempt, bill, on_step_end, on_step_ends, read_result, read_summary, read_run, work_call,
  attempt, summarize,
}

module _ (env : SubagentEnv) where
  open env use {E}

  -- What an attempt says of the signal, and of the turns made since `t`.
  abbrev pub Read : ℕ → ChunkAttempt E × Chunk env → Type 0
  Read t (ChunkAttempt.aborted, c) = env.aborted c.world ≡ true
  Read t (ChunkAttempt.completed text id, c) = env.aborted c.world ≡ false
  Read t (ChunkAttempt.failed f, c) = (env.aborted c.world ≡ false) × (t ≤ c.state.turns)
  Read t (ChunkAttempt.yield, c) = (env.aborted c.world ≡ false) × (t < c.state.turns)

  pub on_step_ends-turns :
      (deps : ChunkRunDeps) (c : Chunk env) (steps : List (List (Message env.Json)))
      → (on_step_ends env deps c steps).state.turns ≡ c.state.turns + length steps
  unfolding on_step_ends on_step_end
  on_step_ends-turns deps c [] = omega arith
  on_step_ends-turns deps c (new ∷ steps) =
      omega (arith, on_step_ends-turns deps (on_step_end env deps c new) steps)

  read_run-Read :
      (deps : ChunkRunDeps) (slot : Slot) (t : ℕ) (read : ModelResult → ChunkAttempt E)
      (o : Outcome E ModelResult) (c : Chunk env)
      → t ≤ c.state.turns
      → ((r : ModelResult) → o ≡ returned r → env.aborted c.world ≡ false → Read t (read r, c))
      → Read t (read_run env deps slot read o c.world, c)
  unfolding read_run
  read_run-Read deps slot t read (threw e) c least k = elim (Bool-cases (env.aborted c.world)) [
    | inl set ↦ rw set set
    | inr unset ↦ rw unset (unset, least)
  ]
  read_run-Read deps slot t read (returned r) c least k = elim (Bool-cases (env.aborted c.world)) [
    | inl set ↦ rw set set
    | inr unset ↦ rw unset (k r refl unset)
  ]

  pub attempt-turns :
      (deps : ChunkRunDeps) (k : ℕ) (slot : Slot) (c : Chunk env)
      → (attempt env deps k slot c).1.state.turns
        ≡ c.state.turns + length (env.generate slot (work_call env deps k c.state) c.world).0.steps
  unfolding attempt
  attempt-turns deps k slot c = on_step_ends-turns deps (bill env c) _

  read_result-Read :
      (deps : ChunkRunDeps) (slot : Slot) (t : ℕ) (r : ModelResult) (c : Chunk env)
      → env.aborted c.world ≡ false
      → t < c.state.turns
      → Read t (read_result env deps slot r, c)
  unfolding read_result
  read_result-Read deps slot t r c unset more =
      elim (Bool-cases (str_eq r.finish_reason "length")) [
        | inl cut ↦ rw cut (unset, omega arith)
        | inr uncut ↦ elim (Bool-cases (str_eq r.finish_reason "stop")) [
          | inl stopped ↦ elim (Bool-cases (is_blank r.text)) [
            | inl blank ↦ rw (uncut, stopped, blank) (unset, omega arith)
            | inr full ↦ rw (uncut, stopped, full) unset
          ]
          | inr going ↦ rw (uncut, going) (unset, more)
        ]
      ]

  pub attempt-Read :
      (deps : ChunkRunDeps) (k : ℕ) (slot : Slot) (t : ℕ) (c : Chunk env)
      → t ≤ c.state.turns
      → Read t (attempt env deps k slot c)
  unfolding attempt
  attempt-Read deps k slot t c least =
      let after = (attempt env deps k slot c).1 in
      let turns = attempt-turns deps k slot c in
      read_run-Read deps slot t (read_result env deps slot) _ after (omega (arith, turns))
        (λ r o unset.
          read_result-Read deps slot t r after unset
            (omega (arith, turns, env.steps_made slot (work_call env deps k c.state) c.world r o)))

  read_summary-Read :
      (deps : ChunkRunDeps) (slot : Slot) (t : ℕ) (r : ModelResult) (c : Chunk env)
      → env.aborted c.world ≡ false
      → t ≤ c.state.turns
      → Read t (read_summary env deps slot r, c)
  unfolding read_summary
  read_summary-Read deps slot t r c unset least = elim (Bool-cases (is_blank r.text)) [
    | inl blank ↦ rw blank (unset, least)
    | inr full ↦ rw full unset
  ]

  pub summarize-Read :
      (deps : ChunkRunDeps) (messages : List (Message env.Json)) (slot : Slot) (c : Chunk env)
      → Read 0 (summarize env deps messages slot c)
  unfolding summarize
  summarize-Read deps messages slot c =
      read_run-Read deps slot 0 (read_summary env deps slot) _
        (summarize env deps messages slot c).1 (omega arith)
        (λ r o unset.
          read_summary-Read deps slot 0 r (summarize env deps messages slot c).1 unset
            (omega arith))
