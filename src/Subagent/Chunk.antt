-- ===== src/Subagent/Chunk.antt =====
-- src/subagent/run.ts: one durable chunk of a run, `runResumableChunk` and `summarizeBudget`.
use Prim.Native.String.{◌++◌ as ◌<>◌}
use looping_core.Base.{
  ℕ, ◌+◌, ◌-◌, ◌/◌, ◌%◌, String, Bool, true, Option, none, some, List, [], ◌∷◌, ◌++◌, Outcome,
  returned, threw, ltb, leb, show, if◌then◌else◌,
}
use looping_core.Round.Turn.Env.{primary, fallback}
use looping_core.Subagent.Messages.{Message, user}
use looping_core.Subagent.Env.{
  SubagentEnv, ChunkRunState, ChunkRunDeps, RecipeExecutionResult, RecipeChunkResult, done,
  not_done, Chunk,
}
use looping_core.Subagent.Attempt.{Failure, ChunkAttempt, attempt, summarize, move}

-- The seconds are rounded. The clock does not run backwards, so the elapsed time is not negative.
unfoldable pub format_duration : ℕ → String
format_duration ms =
    let total = (ms + 500) / 1000 in
    let h = total / 3600 in
    let m = (total % 3600) / 60 in
    let s = total % 60 in
    if ltb 0 h
    then show h <> "h " <> show m <> "m " <> show s <> "s"
    else if ltb 0 m
    then show m <> "m " <> show s <> "s"
    else show s <> "s"

unfoldable pub out_of_budget_notice : String
out_of_budget_notice =
    "You have reached your execution budget and can take no more actions. "
    <> "Write your final answer or report now, based on the work so far."

module _ (env : SubagentEnv) where
  open env use {Json, E, Kind, ProgressEvent}

  -- What a chunk comes to. The state it returns is that of the chunk.
  abbrev pub ChunkEnd : Type 0
  ChunkEnd = Outcome E (RecipeChunkResult ProgressEvent) × Chunk env

  unfoldable pub metrics_footer : ChunkRunState Json → ℕ → String
  unfolding format_duration
  metrics_footer s t =
      "\n\n---\nRan "
      <> show s.turns
      <> " model turn(s) across "
      <> show s.llm_calls
      <> " model call(s) in "
      <> format_duration (t - s.started_at_ms)
      <> "."

  -- The clock is read only where the turns are not spent.
  unfoldable pub budget_spent : ChunkRunDeps → Chunk env → Bool × Chunk env
  budget_spent deps c =
      let clock = env.now c.world in
      if leb deps.limits.max_turns c.state.turns
      then (true, c)
      else (leb (c.state.started_at_ms + deps.limits.max_wall_ms) clock.0, move env c clock.1)

  unfoldable pub yielded : Chunk env → ChunkEnd
  yielded c = (returned (not_done (env.progress c.world)), c)

  unfoldable pub finish : RecipeExecutionResult → Chunk env → ChunkEnd
  finish result c = (returned (done result (env.progress c.world)), c)

  unfoldable pub completed : ChunkRunDeps → String → String → Chunk env → ChunkEnd
  unfolding finish metrics_footer
  completed deps text model_id c =
      let clock = env.now c.world in
      if deps.report_metrics
      then finish
          (RecipeExecutionResult.completed ((text <> metrics_footer c.state clock.0) ∷ []) model_id)
          (move env c clock.1)
      else finish (RecipeExecutionResult.completed (text ∷ []) model_id) c

  unfoldable pub non_recoverable_outcome : String → Kind → String → Chunk env → ChunkEnd
  unfolding finish
  non_recoverable_outcome model_id kind diagnostic c =
      finish
        (RecipeExecutionResult.failed (env.show_kind kind <> ": " <> diagnostic) (some model_id)) c

  abbrev pub or_later : Option E → Option E → Option E
  or_later none later = later
  or_later (some e) later = if env.is_transient e then some e else later

  -- The error to throw again, the later failure's first.
  unfoldable pub transient_error : List (Failure E) → Option E
  transient_error [] = none
  transient_error (f ∷ fs) = or_later f.error (transient_error fs)

  unfoldable pub throw_or : Option E → ChunkEnd → Chunk env → ChunkEnd
  throw_or none otherwise c = otherwise
  throw_or (some e) otherwise c = (threw e, c)

  -- The end of a summary. Neither call of `summarize` yields, so the last notice is never given.
  unfoldable pub after_second_summary :
      ChunkRunDeps → Failure E → ChunkAttempt E × Chunk env → ChunkEnd
  unfolding yielded completed throw_or transient_error
  after_second_summary deps first (ChunkAttempt.aborted, c) = yielded c
  after_second_summary deps first (ChunkAttempt.failed f, c) =
      throw_or (transient_error (f ∷ first ∷ []))
        (completed deps "Reached the execution budget without producing a final report." f.model_id
          c)
        c
  after_second_summary deps first (ChunkAttempt.completed text id, c) = completed deps text id c
  after_second_summary deps first (ChunkAttempt.yield, c) =
      completed deps "Reached the execution budget." deps.fallback_id c

  unfoldable pub summary_fallback :
      Option Kind → ChunkRunDeps → List (Message Json) → Failure E → Chunk env → ChunkEnd
  unfolding non_recoverable_outcome after_second_summary summarize
  summary_fallback (some kind) deps messages first c =
      non_recoverable_outcome first.model_id kind first.diagnostic c
  summary_fallback none deps messages first c =
      after_second_summary deps first (summarize env deps messages fallback c)

  unfoldable pub after_first_summary :
      ChunkRunDeps → List (Message Json) → ChunkAttempt E × Chunk env → ChunkEnd
  unfolding yielded completed summary_fallback
  after_first_summary deps messages (ChunkAttempt.aborted, c) = yielded c
  after_first_summary deps messages (ChunkAttempt.failed f, c) =
      summary_fallback (env.non_recoverable_kind f.error) deps messages f c
  after_first_summary deps messages (ChunkAttempt.completed text id, c) = completed deps text id c
  after_first_summary deps messages (ChunkAttempt.yield, c) =
      completed deps "Reached the execution budget." deps.fallback_id c

  unfoldable pub summarize_budget : ChunkRunDeps → Chunk env → ChunkEnd
  unfolding after_first_summary summarize out_of_budget_notice
  summarize_budget deps c =
      let messages = c.state.messages ++ (user out_of_budget_notice ∷ []) in
      after_first_summary deps messages (summarize env deps messages primary c)

  -- A chunk that stopped between two steps.
  unfoldable pub pause : ChunkRunDeps → Chunk env → ChunkEnd
  unfolding budget_spent summarize_budget yielded
  pause deps c =
      let spent = budget_spent deps c in
      if spent.0 then summarize_budget deps spent.1 else yielded spent.1

  unfoldable pub exhausted : Failure E → Failure E → Chunk env → ChunkEnd
  unfolding finish
  exhausted first second c =
      finish
        (RecipeExecutionResult.failed
          ("recipe exhausted: primary (" <> first.model_id <> "): " <> first.diagnostic
            <> "; fallback (" <> second.model_id <> "): " <> second.diagnostic)
          (some second.model_id))
        c

  unfoldable pub after_fallback : ChunkRunDeps → Failure E → ChunkAttempt E × Chunk env → ChunkEnd
  unfolding yielded completed throw_or transient_error exhausted pause
  after_fallback deps first (ChunkAttempt.aborted, c) = yielded c
  after_fallback deps first (ChunkAttempt.failed f, c) =
      throw_or (transient_error (f ∷ first ∷ [])) (exhausted first f c) c
  after_fallback deps first (ChunkAttempt.completed text id, c) = completed deps text id c
  after_fallback deps first (ChunkAttempt.yield, c) = pause deps c

  unfoldable pub try_fallback : Option Kind → ChunkRunDeps → ℕ → Failure E → Chunk env → ChunkEnd
  unfolding non_recoverable_outcome after_fallback attempt
  try_fallback (some kind) deps chunk_start first c =
      non_recoverable_outcome first.model_id kind first.diagnostic c
  try_fallback none deps chunk_start first c =
      after_fallback deps first (attempt env deps chunk_start fallback c)

  unfoldable pub after_primary : ChunkRunDeps → ℕ → ChunkAttempt E × Chunk env → ChunkEnd
  unfolding yielded completed try_fallback pause
  after_primary deps chunk_start (ChunkAttempt.aborted, c) = yielded c
  after_primary deps chunk_start (ChunkAttempt.failed f, c) =
      try_fallback (env.non_recoverable_kind f.error) deps chunk_start f c
  after_primary deps chunk_start (ChunkAttempt.completed text id, c) = completed deps text id c
  after_primary deps chunk_start (ChunkAttempt.yield, c) = pause deps c

  unfoldable pub work : ChunkRunDeps → Chunk env → ChunkEnd
  unfolding after_primary attempt
  work deps c =
      let clock = env.now c.world in
      after_primary deps clock.0 (attempt env deps clock.0 primary (move env c clock.1))

  unfoldable pub advance : ChunkRunDeps → Chunk env → ChunkEnd
  unfolding budget_spent summarize_budget yielded work
  advance deps c =
      let spent = budget_spent deps c in
      if env.aborted c.world
      then yielded c
      else if spent.0
      then summarize_budget deps spent.1
      else work deps spent.1

  -- The state that a run starts from, where none was saved.
  unfoldable pub open_state : ChunkRunDeps → Option (ChunkRunState Json) → env.World → Chunk env
  open_state deps none w =
      let clock = env.now w in
      record {
        state = record {
          messages = user deps.seed_prompt ∷ [];
          turns = 0;
          llm_calls = 0;
          started_at_ms = clock.0;
        };
        checkpoints = [];
        world = clock.1;
      }
  open_state deps (some s) w = record { state = s; checkpoints = []; world = w }

  unfoldable pub run_resumable_chunk :
      Option (ChunkRunState Json) → ChunkRunDeps → env.World → ChunkEnd
  unfolding open_state advance
  run_resumable_chunk prev deps w = advance deps (open_state deps prev w)
