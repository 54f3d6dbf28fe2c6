-- ===== src/Subagent/Stages.antt =====
-- src/subagent/run.ts: what holds of a chunk at each stage of its model calls holds at its end.
use looping_core.Base.{ℕ, ◌<◌, String, Option, none, some, List, [], ◌∷◌, inl, inr, Bool-cases}
use looping_core.Round.Turn.Env.{primary, fallback}
use looping_core.Subagent.Messages.{Message}
use looping_core.Subagent.Env.{SubagentEnv, ChunkRunDeps, Chunk}
use looping_core.Subagent.Attempt.{Failure, ChunkAttempt, move, attempt, summarize}
use looping_core.Subagent.Chunk.{
  ChunkEnd, yielded, finish, completed, non_recoverable_outcome, transient_error, throw_or,
  after_second_summary, summary_fallback, after_first_summary, summarize_budget, pause, exhausted,
  after_fallback, try_fallback, after_primary, work, advance,
}
use looping_core.Subagent.Ends.{budget_spent-cases}

-- Before a call; after the primary's attempt; after the attempts; after the first summary; at the end.
pub data Stage : Type 0 where
  fresh tried over summed ended : Stage

module _ (env : SubagentEnv) (deps : ChunkRunDeps) where
  open env use {E, World}

  -- What a property of chunks, one at each stage, needs to last to the end.
  pub record Lasts (P : Stage → Chunk env → Type 0) : Type 0 where
    pub moves : (s : Stage) (c : Chunk env) (w : World) → P s c → P s (move env c w)
    pub first :
        (k : ℕ) (c : Chunk env)
        → P fresh c
        → c.state.turns < deps.limits.max_turns
        → P tried (attempt env deps k primary c).1
    pub second : (k : ℕ) (c : Chunk env) → P tried c → P over (attempt env deps k fallback c).1
    pub sums :
        (ms : List (Message env.Json)) (c : Chunk env)
        → P over c
        → P summed (summarize env deps ms primary c).1
    pub sums_again :
        (ms : List (Message env.Json)) (c : Chunk env)
        → P summed c
        → P ended (summarize env deps ms fallback c).1
    pub untried : (c : Chunk env) → P fresh c → P over c
    pub enough : (c : Chunk env) → P tried c → P over c
    pub unsummed : (c : Chunk env) → P over c → P summed c
    pub ends : (c : Chunk env) → P summed c → P ended c

  module _ (P : Stage → Chunk env → Type 0) (lasts : Lasts P) where
    open lasts use {moves, first, second, sums, sums_again, untried, enough, unsummed, ends}

    over_ends : (c : Chunk env) → P over c → P ended c
    over_ends c h = ends c (unsummed c h)

    completed-lasts :
        (text id : String) (c : Chunk env) → P ended c → P ended (completed env deps text id c).1
    unfolding completed finish
    completed-lasts text id c h = elim (Bool-cases deps.report_metrics) [
      | inl reports ↦ rw reports (moves ended c _ h)
      | inr plain ↦ rw plain h
    ]

    throw_or-lasts :
        (o : Option E) (otherwise : ChunkEnd env) (c : Chunk env)
        → P ended otherwise.1
        → P ended c
        → P ended (throw_or env o otherwise c).1
    unfolding throw_or
    throw_or-lasts none otherwise c h hc = h
    throw_or-lasts (some e) otherwise c h hc = hc

    after_second_summary-lasts :
        (f : Failure E) (a : ChunkAttempt E × Chunk env)
        → P ended a.1
        → P ended (after_second_summary env deps f a).1
    unfolding after_second_summary yielded
    after_second_summary-lasts f (ChunkAttempt.aborted, c) h = h
    after_second_summary-lasts f (ChunkAttempt.failed g, c) h =
        throw_or-lasts (transient_error env (g ∷ f ∷ [])) _ c (completed-lasts _ _ c h) h
    after_second_summary-lasts f (ChunkAttempt.completed text id, c) h = completed-lasts text id c h
    after_second_summary-lasts f (ChunkAttempt.yield, c) h = completed-lasts _ _ c h

    summary_fallback-lasts :
        (kind : Option env.Kind) (ms : List (Message env.Json)) (f : Failure E) (c : Chunk env)
        → P summed c
        → P ended (summary_fallback env kind deps ms f c).1
    unfolding summary_fallback non_recoverable_outcome finish
    summary_fallback-lasts none ms f c h = after_second_summary-lasts f _ (sums_again ms c h)
    summary_fallback-lasts (some kind) ms f c h = ends c h

    after_first_summary-lasts :
        (ms : List (Message env.Json)) (a : ChunkAttempt E × Chunk env)
        → P summed a.1
        → P ended (after_first_summary env deps ms a).1
    unfolding after_first_summary yielded
    after_first_summary-lasts ms (ChunkAttempt.aborted, c) h = ends c h
    after_first_summary-lasts ms (ChunkAttempt.failed f, c) h =
        summary_fallback-lasts (env.non_recoverable_kind f.error) ms f c h
    after_first_summary-lasts ms (ChunkAttempt.completed text id, c) h =
        completed-lasts text id c (ends c h)
    after_first_summary-lasts ms (ChunkAttempt.yield, c) h = completed-lasts _ _ c (ends c h)

    summarize_budget-lasts : (c : Chunk env) → P over c → P ended (summarize_budget env deps c).1
    unfolding summarize_budget
    summarize_budget-lasts c h = after_first_summary-lasts _ _ (sums _ c h)

    pause-lasts : (c : Chunk env) → P over c → P ended (pause env deps c).1
    unfolding pause yielded
    pause-lasts c h = elim (budget_spent-cases env deps c) [
      | inl (w, spent, same) ↦ rw spent (summarize_budget-lasts (move env c w) (moves over c w h))
      | inr (w, left, same, few) ↦ rw left (over_ends (move env c w) (moves over c w h))
    ]

    after_fallback-lasts :
        (f : Failure E) (a : ChunkAttempt E × Chunk env)
        → P over a.1
        → P ended (after_fallback env deps f a).1
    unfolding after_fallback yielded exhausted finish
    after_fallback-lasts f (ChunkAttempt.aborted, c) h = over_ends c h
    after_fallback-lasts f (ChunkAttempt.failed g, c) h =
        throw_or-lasts (transient_error env (g ∷ f ∷ [])) _ c (over_ends c h) (over_ends c h)
    after_fallback-lasts f (ChunkAttempt.completed text id, c) h =
        completed-lasts text id c (over_ends c h)
    after_fallback-lasts f (ChunkAttempt.yield, c) h = pause-lasts c h

    try_fallback-lasts :
        (kind : Option env.Kind) (k : ℕ) (f : Failure E) (c : Chunk env)
        → P tried c
        → P ended (try_fallback env kind deps k f c).1
    unfolding try_fallback non_recoverable_outcome finish
    try_fallback-lasts none k f c h = after_fallback-lasts f _ (second k c h)
    try_fallback-lasts (some kind) k f c h = over_ends c (enough c h)

    after_primary-lasts :
        (k : ℕ) (a : ChunkAttempt E × Chunk env)
        → P tried a.1
        → P ended (after_primary env deps k a).1
    unfolding after_primary yielded
    after_primary-lasts k (ChunkAttempt.aborted, c) h = over_ends c (enough c h)
    after_primary-lasts k (ChunkAttempt.failed f, c) h =
        try_fallback-lasts (env.non_recoverable_kind f.error) k f c h
    after_primary-lasts k (ChunkAttempt.completed text id, c) h =
        completed-lasts text id c (over_ends c (enough c h))
    after_primary-lasts k (ChunkAttempt.yield, c) h = pause-lasts c (enough c h)

    pub advance-lasts : (c : Chunk env) → P fresh c → P ended (advance env deps c).1
    unfolding advance work yielded
    advance-lasts c h = elim (Bool-cases (env.aborted c.world)) [
      | inl set ↦ rw set (over_ends c (untried c h))
      | inr unset ↦ elim (budget_spent-cases env deps c) [
        | inl (w, spent, same) ↦
            rw (unset, spent) (summarize_budget-lasts (move env c w) (moves over c w (untried c h)))
        | inr (w, left, same, few) ↦
            let clock = env.now w in
            rw (unset, left)
              (after_primary-lasts clock.0 _
                (first clock.0 (move env c clock.1) (moves fresh c clock.1 h) few))
      ]
    ]
