-- ===== src/Subagent/Prompt.antt =====
-- src/subagent/prompt.ts: the prompt of one execution.
use Prim.Native.String.{◌++◌ as ◌<>◌}
use looping_core.Base.{
  ℕ, suc, ◌+◌, ◌/◌, String, List, [], ◌∷◌, ◌++◌, show, trim, is_blank, join_text, if◌then◌else◌,
}
use looping_core.Contract.Limits.{AgentLimits}
use looping_core.Contract.Recipe.{ValidatedRecipe}
use looping_core.Subtasks.Types.{Speaker, SubtaskReference, SubtaskParams}

-- What a request asks for, apart from its recipe.
pub record Assignment : Type 0 where
  pub task_id : String
  pub subtask_id : ℕ
  pub type : String
  pub prompt : String
  pub references : List SubtaskReference
  pub params : SubtaskParams

pub record RenderedInvocation : Type 0 where
  pub system : String
  pub prompt : String

unfoldable pub render_budget : AgentLimits → String
render_budget limits =
    "# Budget\nUp to "
    <> show limits.max_turns
    <> " turns and about "
    <> show ((limits.max_wall_ms + 30000) / 60000)
    <> " minutes. "
    <> "One turn is one tool call, however much that call does — anything a tool "
    <> "counts internally is its own budget, not this one. Reaching either ceiling "
    <> "does not drop your work: you get one last turn, with no tools, to write up "
    <> "what you have."

abbrev role_name : Speaker → String
role_name Speaker.user = "user"
role_name Speaker.assistant = "assistant"

unfoldable pub render_references : ℕ → List SubtaskReference → List String
render_references i [] = []
render_references i (r ∷ refs) =
    ("[ref " <> show (i + 1) <> "] (" <> role_name r.role <> "): " <> r.text)
    ∷ render_references (suc i) refs

unfoldable pub reference_section : List SubtaskReference → List String
unfolding render_references
reference_section [] = []
reference_section (r ∷ refs) =
    ("# Conversation references (verbatim snapshots of the caller's conversation)\n"
      <> join_text "\n" (render_references 0 (r ∷ refs)))
    ∷ []

unfoldable pub render_subagent_prompt : Assignment → ValidatedRecipe → RenderedInvocation
unfolding render_budget reference_section
render_subagent_prompt request recipe =
    let task = if is_blank request.prompt then [] else ("# Task\n" <> trim request.prompt) ∷ [] in
    record {
      system = recipe.soul;
      prompt =
          join_text "\n\n"
            ((render_budget recipe.limits ∷ task) ++ reference_section request.references);
    }
