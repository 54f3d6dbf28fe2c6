-- ===== src/Subagent/Retention.antt =====
-- src/subagent/run.ts, `elideToolOutputs`: the four rules of its doc comment, told of each part by the
-- messages that come after it, and not by positions and cutoffs.
use looping_core.Base.{
  ℕ, zero, suc, String, ◌≤◌, ◌<◌, ◌+◌, ◌-◌, Bool, true, false, not, Option, none, some, List, [],
  ◌∷◌, length, map, any, get_elem?, leb, ltb, ◌==◌, str_eq, str_eq_iff, ◌≡◌, refl, ap, sym, ◌∙◌,
  arith, Bool-cases, Option-cases, inl, inr, ◌⊎◌, subst,
}
use looping_core.Subagent.Messages.{
  Message, system, user, assistant, tool, ToolPart, ToolResult, tool_result, approval_response,
  ToolOutput, text, error_text, json, error_json, content, execution_denied, WindowWidth,
  text_length, is_at, or_here, assistant_indices, is_result_of, has_result_of, newest_per_tool,
  keep_width, cutoff_at, detail_cutoff, is_below, is_spared, elide_part, elide_message, elide_from,
  elide_tool_outputs, elided_tool_output,
}
pub mod Parts
pub mod Cuts
pub mod Elision

-- A value whose size cannot be told is not small.
abbrev pub IsBelow : Option ℕ → Type 0
IsBelow none = ⊥
IsBelow (some n) = n < 200

module _ {Json : Type 0} where
  -- The assistant messages of a list.
  abbrev pub turns : List (Message Json) → ℕ
  turns [] = 0
  turns (system t ∷ ms) = turns ms
  turns (user t ∷ ms) = turns ms
  turns (assistant c ∷ ms) = suc (turns ms)
  turns (tool ps ∷ ms) = turns ms

  -- Within the last `width` turns of a conversation that has `total`, given what comes later.
  abbrev pub IsRecent : Option ℕ → ℕ → List (Message Json) → Type 0
  IsRecent none total later = Unit
  IsRecent (some k) total later = (turns later < k) ⊎ ((1 ≤ k) × (total ≤ k))

  abbrev pub IsFailure : ToolOutput Json → Type 0
  IsFailure (text t) = ⊥
  IsFailure (error_text t) = Unit
  IsFailure (json v) = ⊥
  IsFailure (error_json v) = Unit
  IsFailure (content v) = ⊥
  IsFailure (execution_denied reason) = Unit

  abbrev pub stub : ToolResult Json → ToolPart Json
  stub r = tool_result (record {
    call_id = r.call_id;
    tool_name = r.tool_name;
    output = text "[output from an earlier turn, trimmed to save context]";
  })

  module _ (json_size : Json → Option ℕ) where
    abbrev pub IsSmall : ToolOutput Json → Type 0
    IsSmall (text t) = text_length t < 200
    IsSmall (error_text t) = ⊥
    IsSmall (json v) = IsBelow (json_size v)
    IsSmall (error_json v) = ⊥
    IsSmall (content v) = IsBelow (json_size v)
    IsSmall (execution_denied reason) = ⊥

    -- Why a result keeps its output.
    pub data IsKept (Recent : Type 0) (later : List (Message Json)) (r : ToolResult Json)
        : Type 0 where
      is_recent : Recent → IsKept Recent later r
      is_newest : any (has_result_of r.tool_name) later ≡ false → IsKept Recent later r
      is_failure : IsFailure r.output → IsKept Recent later r
      is_small : IsSmall r.output → IsKept Recent later r

    -- What becomes of a part: a result stays as it is where a rule keeps it, and only there.
    abbrev pub PartOf : Type 0 → List (Message Json) → ToolPart Json → ToolPart Json → Type 0
    PartOf Recent later (approval_response a) p = p ≡ approval_response a
    PartOf Recent later (tool_result r) p =
        ((p ≡ tool_result r) × IsKept Recent later r) ⊎ ((p ≡ stub r) × ¬ IsKept Recent later r)

    abbrev pub PartsOf :
        Type 0 → List (Message Json) → List (ToolPart Json) → List (ToolPart Json) → Type 0
    PartsOf Recent later [] [] = Unit
    PartsOf Recent later [] (q ∷ qs) = ⊥
    PartsOf Recent later (p ∷ ps) [] = ⊥
    PartsOf Recent later (p ∷ ps) (q ∷ qs) = PartOf Recent later p q × PartsOf Recent later ps qs

    abbrev pub MessageOf : Type 0 → List (Message Json) → Message Json → Message Json → Type 0
    MessageOf Recent later (system t) n = n ≡ system t
    MessageOf Recent later (user t) n = n ≡ user t
    MessageOf Recent later (assistant c) n = n ≡ assistant c
    MessageOf Recent later (tool ps) n =
        (qs : List (ToolPart Json)) × (n ≡ tool qs) × PartsOf Recent later ps qs

    abbrev pub Retains : Option ℕ → ℕ → List (Message Json) → List (Message Json) → Type 0
    Retains width total [] [] = Unit
    Retains width total [] (n ∷ ns) = ⊥
    Retains width total (m ∷ ms) [] = ⊥
    Retains width total (m ∷ ms) (n ∷ ns) =
        MessageOf (IsRecent width total ms) ms m n × Retains width total ms ns
