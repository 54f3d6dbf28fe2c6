-- ===== src/Subagent/Rolling.antt =====
-- src/subagent/run.ts: the conversation that a chunk keeps and checkpoints.
use looping_core.Base.{
  ℕ, ◌≤◌, ◌==◌, Option, none, some, List, [], ◌∷◌, ◌++◌, length, String, ◌≡◌, refl, ap, arith,
  Bool-cases, inl, inr,
}
use looping_core.Round.Turn.Env.{Slot, primary, fallback}
use looping_core.Subagent.Messages.{
  Message, user, assistant, WindowWidth, window_messages, detail_cutoff, keep_width,
  newest_per_tool, elide_message, elide_from, elide_tool_outputs,
}
use looping_core.Subagent.Window.{count_turns, Windowed, window_messages-Windowed}
use looping_core.Subagent.Elide.{elide_from-indices}
use looping_core.Subagent.Env.{SubagentEnv, ChunkRunState, ChunkRunDeps, Chunk}
use looping_core.Subagent.Attempt.{
  bill, step_state, on_step_end, on_step_ends, work_call, attempt, summarize,
}
use looping_core.Subagent.Chunk.{open_state, run_resumable_chunk}
use looping_core.Subagent.Stages.{Lasts, advance-lasts}

-- A conversation that begins with the seed prompt and holds at most `n` turns after it.
abbrev pub IsRolling : {Json : Type 0} → String → ℕ → List (Message Json) → Type 0
IsRolling seed n [] = ⊥
IsRolling seed n (m ∷ ms) = (m ≡ user seed) × (count_turns ms ≤ n)

module _ {Json : Type 0} (json_size : Json → Option ℕ) where
  elide-IsRolling :
      (seed : String) (n : ℕ) (ms : List (Message Json)) (width : WindowWidth)
      → count_turns ms ≤ n
      → IsRolling seed n (elide_tool_outputs json_size (user seed ∷ ms) width)
  unfolding elide_tool_outputs elide_from elide_message count_turns
  elide-IsRolling seed n ms width few =
      let all = user seed ∷ ms in
      let cutoff = detail_cutoff all (keep_width width) in
      elim (Bool-cases (cutoff == 0)) [
        | inl none_old ↦ rw none_old (refl, few)
        | inr some_old ↦
            let newest = newest_per_tool 0 all in
            let same = ap length (elide_from-indices json_size cutoff newest 1 0 ms) in
            rw some_old (refl, omega (arith, same))
      ]

  -- A conversation that begins with the seed goes through the window and the trimming.
  trim-IsRolling :
      (seed : String) (n : ℕ) (ms ws : List (Message Json)) (width : WindowWidth)
      → Windowed (user seed) ms n ws
      → IsRolling seed n (elide_tool_outputs json_size ws width)
  trim-IsRolling seed n ms ws width (Windowed.whole all few) =
      rw all (elide-IsRolling seed n ms width few)
  trim-IsRolling seed n ms ws width (Windowed.trimmed before turn after parts kept few) =
      rw kept (elide-IsRolling seed n (assistant turn ∷ after) width (omega (arith, few)))

module _ (env : SubagentEnv) where
  open env use {Json, World}

  step_state-IsRolling :
      (deps : ChunkRunDeps) (s : ChunkRunState Json) (new : List (Message Json))
      → 1 ≤ deps.history_window
      → IsRolling deps.seed_prompt deps.history_window s.messages
      → IsRolling deps.seed_prompt deps.history_window (step_state env deps s new).messages
  unfolding step_state
  step_state-IsRolling deps s new pos h = begun s.messages h
    where
      begun :
          (ms : List (Message Json))
          → IsRolling deps.seed_prompt deps.history_window ms
          → IsRolling deps.seed_prompt deps.history_window (
              elide_tool_outputs env.json_size
                (window_messages (ms ++ new) deps.history_window)
                deps.tool_output_window)
      begun [] h = absurd h
      begun (m ∷ ms) h = rw h.0 (
          trim-IsRolling env.json_size deps.seed_prompt deps.history_window (ms ++ new) _
            deps.tool_output_window
            (window_messages-Windowed (user deps.seed_prompt) (ms ++ new) deps.history_window pos))

  -- What a run is continued from.
  abbrev pub IsSaved : ChunkRunDeps → Option (ChunkRunState Json) → Type 0
  IsSaved deps none = Unit
  IsSaved deps (some s) = IsRolling deps.seed_prompt deps.history_window s.messages

  abbrev pub AllRolling : ChunkRunDeps → List (ChunkRunState Json) → Type 0
  AllRolling deps [] = Unit
  AllRolling deps (s ∷ older) =
      IsRolling deps.seed_prompt deps.history_window s.messages × AllRolling deps older

  -- The conversation that a chunk holds, and each one that it has checkpointed.
  abbrev pub KeepsWindow : ChunkRunDeps → Chunk env → Type 0
  KeepsWindow deps c =
      IsRolling deps.seed_prompt deps.history_window c.state.messages
      × AllRolling deps c.checkpoints

  on_step_ends-KeepsWindow :
      (deps : ChunkRunDeps) (c : Chunk env) (steps : List (List (Message Json)))
      → 1 ≤ deps.history_window
      → KeepsWindow deps c
      → KeepsWindow deps (on_step_ends env deps c steps)
  unfolding on_step_ends on_step_end
  on_step_ends-KeepsWindow deps c [] pos h = h
  on_step_ends-KeepsWindow deps c (new ∷ steps) pos h =
      let next = step_state-IsRolling deps c.state new pos h.0 in
      on_step_ends-KeepsWindow deps (on_step_end env deps c new) steps pos (next, (next, h.1))

  attempt-KeepsWindow :
      (deps : ChunkRunDeps) (k : ℕ) (slot : Slot) (c : Chunk env)
      → 1 ≤ deps.history_window
      → KeepsWindow deps c
      → KeepsWindow deps (attempt env deps k slot c).1
  unfolding attempt
  attempt-KeepsWindow deps k slot c pos h =
      on_step_ends-KeepsWindow deps (bill env c)
        (env.generate slot (work_call env deps k c.state) c.world).0.steps pos h

  KeepsWindow-Lasts :
      (deps : ChunkRunDeps) → 1 ≤ deps.history_window → Lasts env deps (λ s c. KeepsWindow deps c)
  unfolding summarize
  KeepsWindow-Lasts deps pos = record {
    moves = λ s c w h. h;
    first = λ k c h few. attempt-KeepsWindow deps k primary c pos h;
    second = λ k c h. attempt-KeepsWindow deps k fallback c pos h;
    sums = λ ms c h. h;
    sums_again = λ ms c h. h;
    untried = λ c h. h;
    enough = λ c h. h;
    unsummed = λ c h. h;
    ends = λ c h. h;
  }

  -- Where the history window is not zero, a chunk that starts afresh, or from a conversation that begins
  -- with the seed prompt and holds no more turns after it than the window, ends with such a conversation,
  -- and each of its checkpoints is such a conversation; however it ends.
  pub run_resumable_chunk-KeepsWindow :
      (prev : Option (ChunkRunState Json)) (deps : ChunkRunDeps) (w : World)
      → 1 ≤ deps.history_window
      → IsSaved deps prev
      → KeepsWindow deps (run_resumable_chunk env prev deps w).1
  unfolding run_resumable_chunk open_state count_turns
  run_resumable_chunk-KeepsWindow none deps w pos h =
      advance-lasts env deps (λ s c. KeepsWindow deps c) (KeepsWindow-Lasts deps pos)
        (open_state env deps none w) ((refl, omega arith), tt)
  run_resumable_chunk-KeepsWindow (some s) deps w pos h =
      advance-lasts env deps (λ s c. KeepsWindow deps c) (KeepsWindow-Lasts deps pos)
        (open_state env deps (some s) w) (h, tt)
