-- ===== src/Subagent/Ends.antt =====
-- src/subagent/run.ts: how a chunk ends, on every path.
use looping_core.Base.{
  ℕ, ◌+◌, ◌≤◌, ◌<◌, String, true, false, Option, none, some, List, [], ◌∷◌, returned, threw, leb,
  ◌≡◌, refl, ◌∙◌, arith, Bool-cases, ◌⊎◌, inl, inr,
}
use looping_core.Round.Turn.Env.{primary, fallback}
use looping_core.Subagent.Messages.{Message}
use looping_core.Subagent.Env.{
  SubagentEnv, ChunkRunState, ChunkRunDeps, RecipeExecutionResult, done, not_done, Chunk,
}
use looping_core.Subagent.Attempt.{Failure, ChunkAttempt, move}
use looping_core.Subagent.Reading.{Read, attempt-Read, summarize-Read}
use looping_core.Subagent.Chunk.{
  ChunkEnd, budget_spent, yielded, finish, completed, non_recoverable_outcome, or_later,
  transient_error, throw_or, after_second_summary, summary_fallback, after_first_summary,
  summarize_budget, pause, exhausted, after_fallback, try_fallback, after_primary, work, advance,
  open_state, run_resumable_chunk,
}

-- A terminal result that says which model it came from.
abbrev pub NamesModel : RecipeExecutionResult → Type 0
NamesModel (RecipeExecutionResult.completed text id) = Unit
NamesModel (RecipeExecutionResult.failed error none) = ⊥
NamesModel (RecipeExecutionResult.failed error (some id)) = Unit

module _ (env : SubagentEnv) where
  open env use {E, World, ProgressEvent}

  -- How a chunk that began with `t` turns may end: a terminal result comes only where the signal is not
  -- set, and names its model; without one the signal is set, or a turn was made and some are left; an
  -- error that is thrown is a transient one.
  abbrev pub Ends : ChunkRunDeps → ℕ → ChunkEnd env → Type 0
  Ends deps t (returned (done result events), c) = (env.aborted c.world ≡ false) × NamesModel result
  Ends deps t (returned (not_done events), c) =
      (env.aborted c.world ≡ true) ⊎ ((t < c.state.turns) × (c.state.turns < deps.limits.max_turns))
  Ends deps t (threw e, c) = env.is_transient e ≡ true

  completed-Ends :
      (deps : ChunkRunDeps) (t : ℕ) (text id : String) (c : Chunk env)
      → env.aborted c.world ≡ false
      → Ends deps t (completed env deps text id c)
  unfolding completed finish
  completed-Ends deps t text id c unset = elim (Bool-cases deps.report_metrics) [
    | inl reports ↦ rw reports (env.now-aborted c.world ∙ unset, tt)
    | inr plain ↦ rw plain (unset, tt)
  ]

  transient_error-cases :
      (fs : List (Failure E))
      → (transient_error env fs ≡ none)
        ⊎ ((e : E) × (transient_error env fs ≡ some e) × (env.is_transient e ≡ true))
  unfolding transient_error
  transient_error-cases [] = inl refl
  transient_error-cases (f ∷ fs) = later f.error (transient_error-cases fs)
    where
      later :
          (o : Option E)
          → (transient_error env fs ≡ none)
            ⊎ ((e : E) × (transient_error env fs ≡ some e) × (env.is_transient e ≡ true))
          → (or_later env o (transient_error env fs) ≡ none)
            ⊎ ((e : E) × (or_later env o (transient_error env fs) ≡ some e)
                × (env.is_transient e ≡ true))
      later none rest = rest
      later (some e) rest = elim (Bool-cases (env.is_transient e)) [
        | inl transient ↦ inr (e, rw transient refl, transient)
        | inr lasting ↦ rw lasting rest
      ]

  throw_or-Ends :
      (deps : ChunkRunDeps) (t : ℕ) (fs : List (Failure E)) (otherwise : ChunkEnd env)
      (c : Chunk env)
      → Ends deps t otherwise
      → Ends deps t (throw_or env (transient_error env fs) otherwise c)
  unfolding throw_or
  throw_or-Ends deps t fs otherwise c ends = elim (transient_error-cases fs) [
    | inl none_thrown ↦ rw none_thrown ends
    | inr (e, thrown, transient) ↦ rw thrown transient
  ]

  after_second_summary-Ends :
      (deps : ChunkRunDeps) (t : ℕ) (first : Failure E) (tried : ChunkAttempt E × Chunk env)
      → Read env 0 tried
      → Ends deps t (after_second_summary env deps first tried)
  unfolding after_second_summary yielded
  after_second_summary-Ends deps t first (ChunkAttempt.aborted, c) read = inl read
  after_second_summary-Ends deps t first (ChunkAttempt.failed f, c) read =
      throw_or-Ends deps t (f ∷ first ∷ []) _ c (completed-Ends deps t _ _ c read.0)
  after_second_summary-Ends deps t first (ChunkAttempt.completed text id, c) read =
      completed-Ends deps t text id c read
  after_second_summary-Ends deps t first (ChunkAttempt.yield, c) read =
      completed-Ends deps t _ _ c read.0

  summary_fallback-Ends :
      (kind : Option env.Kind) (deps : ChunkRunDeps) (t : ℕ) (messages : List (Message env.Json))
      (first : Failure E) (c : Chunk env)
      → env.aborted c.world ≡ false
      → Ends deps t (summary_fallback env kind deps messages first c)
  unfolding summary_fallback non_recoverable_outcome finish
  summary_fallback-Ends none deps t messages first c unset =
      after_second_summary-Ends deps t first _ (summarize-Read env deps messages fallback c)
  summary_fallback-Ends (some kind) deps t messages first c unset = (unset, tt)

  after_first_summary-Ends :
      (deps : ChunkRunDeps) (t : ℕ) (messages : List (Message env.Json))
      (tried : ChunkAttempt E × Chunk env)
      → Read env 0 tried
      → Ends deps t (after_first_summary env deps messages tried)
  unfolding after_first_summary yielded
  after_first_summary-Ends deps t messages (ChunkAttempt.aborted, c) read = inl read
  after_first_summary-Ends deps t messages (ChunkAttempt.failed f, c) read =
      summary_fallback-Ends (env.non_recoverable_kind f.error) deps t messages f c read.0
  after_first_summary-Ends deps t messages (ChunkAttempt.completed text id, c) read =
      completed-Ends deps t text id c read
  after_first_summary-Ends deps t messages (ChunkAttempt.yield, c) read =
      completed-Ends deps t _ _ c read.0

  summarize_budget-Ends :
      (deps : ChunkRunDeps) (t : ℕ) (c : Chunk env) → Ends deps t (summarize_budget env deps c)
  unfolding summarize_budget
  summarize_budget-Ends deps t c =
      after_first_summary-Ends deps t _ _ (summarize-Read env deps _ primary c)

  -- The reading of the budget moves the clock at most, and where it is not spent turns are left.
  pub budget_spent-cases :
      (deps : ChunkRunDeps) (c : Chunk env)
      → ((w : World) × (budget_spent env deps c ≡ (true, move env c w))
          × (env.aborted w ≡ env.aborted c.world))
        ⊎ ((w : World) × (budget_spent env deps c ≡ (false, move env c w))
            × (env.aborted w ≡ env.aborted c.world)
            × (c.state.turns < deps.limits.max_turns))
  unfolding budget_spent
  budget_spent-cases deps c = elim (Bool-cases (leb deps.limits.max_turns c.state.turns)) [
    | inl no_turns ↦ inl (c.world, rw no_turns refl, refl)
    | inr turns ↦
        let clock = env.now c.world in
        elim (Bool-cases (leb (c.state.started_at_ms + deps.limits.max_wall_ms) clock.0)) [
          | inl late ↦ inl (clock.1, rw (turns, late) refl, env.now-aborted c.world)
          | inr early ↦ inr (clock.1, rw (turns, early) refl, env.now-aborted c.world, ground arith)
        ]
  ]

  pause-Ends :
      (deps : ChunkRunDeps) (t : ℕ) (c : Chunk env)
      → env.aborted c.world ≡ false
      → t < c.state.turns
      → Ends deps t (pause env deps c)
  unfolding pause yielded
  pause-Ends deps t c unset more = elim (budget_spent-cases deps c) [
    | inl (w, spent, same) ↦ rw spent (summarize_budget-Ends deps t (move env c w))
    | inr (w, left, same, few) ↦ rw left (inr (more, few))
  ]

  after_fallback-Ends :
      (deps : ChunkRunDeps) (t : ℕ) (first : Failure E) (tried : ChunkAttempt E × Chunk env)
      → Read env t tried
      → Ends deps t (after_fallback env deps first tried)
  unfolding after_fallback yielded exhausted finish
  after_fallback-Ends deps t first (ChunkAttempt.aborted, c) read = inl read
  after_fallback-Ends deps t first (ChunkAttempt.failed f, c) read =
      throw_or-Ends deps t (f ∷ first ∷ []) _ c (read.0, tt)
  after_fallback-Ends deps t first (ChunkAttempt.completed text id, c) read =
      completed-Ends deps t text id c read
  after_fallback-Ends deps t first (ChunkAttempt.yield, c) read = pause-Ends deps t c read.0 read.1

  try_fallback-Ends :
      (kind : Option env.Kind) (deps : ChunkRunDeps) (t k : ℕ) (first : Failure E) (c : Chunk env)
      → env.aborted c.world ≡ false
      → t ≤ c.state.turns
      → Ends deps t (try_fallback env kind deps k first c)
  unfolding try_fallback non_recoverable_outcome finish
  try_fallback-Ends none deps t k first c unset least =
      after_fallback-Ends deps t first _ (attempt-Read env deps k fallback t c least)
  try_fallback-Ends (some kind) deps t k first c unset least = (unset, tt)

  after_primary-Ends :
      (deps : ChunkRunDeps) (t k : ℕ) (tried : ChunkAttempt E × Chunk env)
      → Read env t tried
      → Ends deps t (after_primary env deps k tried)
  unfolding after_primary yielded
  after_primary-Ends deps t k (ChunkAttempt.aborted, c) read = inl read
  after_primary-Ends deps t k (ChunkAttempt.failed f, c) read =
      try_fallback-Ends (env.non_recoverable_kind f.error) deps t k f c read.0 read.1
  after_primary-Ends deps t k (ChunkAttempt.completed text id, c) read =
      completed-Ends deps t text id c read
  after_primary-Ends deps t k (ChunkAttempt.yield, c) read = pause-Ends deps t c read.0 read.1

  pub advance-Ends :
      (deps : ChunkRunDeps) (c : Chunk env) → Ends deps c.state.turns (advance env deps c)
  unfolding advance work yielded
  advance-Ends deps c = elim (Bool-cases (env.aborted c.world)) [
    | inl set ↦ rw set (inl set)
    | inr unset ↦ elim (budget_spent-cases deps c) [
      | inl (w, spent, same) ↦
          rw (unset, spent) (summarize_budget-Ends deps c.state.turns (move env c w))
      | inr (w, left, same, few) ↦
          let clock = env.now w in
          rw (unset, left)
            (after_primary-Ends deps c.state.turns clock.0 _ (
              attempt-Read env deps clock.0 primary c.state.turns (move env c clock.1)
                (omega arith)))
    ]
  ]

  -- The turns of a run that the next chunk continues.
  abbrev pub turns_so_far : Option (ChunkRunState env.Json) → ℕ
  turns_so_far none = 0
  turns_so_far (some s) = s.turns

  -- A chunk of a run ends in one of four ways. It gives a terminal result, which names its model, and
  -- then the abort signal is not set; it gives none, and then the signal is set; it gives none, and then
  -- it has made at least one turn and turns are left in the budget; or it throws, and then the error is
  -- a transient one.
  pub run_resumable_chunk-Ends :
      (prev : Option (ChunkRunState env.Json)) (deps : ChunkRunDeps) (w : World)
      → Ends deps (turns_so_far prev) (run_resumable_chunk env prev deps w)
  unfolding run_resumable_chunk open_state
  run_resumable_chunk-Ends none deps w = advance-Ends deps (open_state env deps none w)
  run_resumable_chunk-Ends (some s) deps w = advance-Ends deps (open_state env deps (some s) w)
