-- ===== src/Round/Turn/Ending.antt =====
-- src/round/turn.ts, what an attempt makes of the calls that a model ended on.
use looping_core.Base.{
  ℕ, String, Option, none, some, List, [], ◌∷◌, leb, str_eq, if◌then◌else◌, returned, threw,
}
use looping_core.Agent.Control.{ControlTool, TurnDecision}
use looping_core.Round.Turn.Env.{ToolCall, GenerateResult}

-- The inputs of the calls of one tool, in order.
unfoldable pub inputs_of : {Input : Type 0} → String → List (ToolCall Input) → List Input
inputs_of name [] = []
inputs_of name (c ∷ cs) =
    if str_eq c.tool_name name then c.input ∷ inputs_of name cs else inputs_of name cs

-- Which ending counts: of the tools that were called, the one of highest precedence. `sort` is stable.
module _ {Input E : Type 0} where
  unfoldable pub called :
      List (ToolCall Input) → List (ControlTool Input E) → List (ControlTool Input E × List Input)
  unfolding inputs_of
  called calls [] = []
  called calls (t ∷ ts) = elim (inputs_of t.name calls) [
    | [] ↦ called calls ts
    | x ∷ xs ↦ (t, x ∷ xs) ∷ called calls ts
  ]

  unfoldable pub insert_by_precedence :
      ControlTool Input E × List Input
      → List (ControlTool Input E × List Input)
      → List (ControlTool Input E × List Input)
  insert_by_precedence x [] = x ∷ []
  insert_by_precedence x (y ∷ ys) =
      if leb y.0.precedence x.0.precedence then x ∷ y ∷ ys else y ∷ insert_by_precedence x ys

  unfoldable pub sort_by_precedence :
      List (ControlTool Input E × List Input) → List (ControlTool Input E × List Input)
  unfolding insert_by_precedence
  sort_by_precedence [] = []
  sort_by_precedence (x ∷ xs) = insert_by_precedence x (sort_by_precedence xs)

-- What one attempt produced.
pub data Attempt (Input E : Type 0) : Type 0 where
  decided : TurnDecision → Attempt Input E
  failed : E → Option (String × Input) → Attempt Input E

module _ {Input E : Type 0} where
  -- `subject` is the call that a rejection shows to the model.
  unfoldable pub parse_subject : ControlTool Input E → Input → Attempt Input E
  parse_subject t subject = elim (t.parse subject) [
    | returned d ↦ decided d
    | threw e ↦ failed e (some (t.name, subject))
  ]

  unfoldable pub judge : ControlTool Input E → Input → List Input → Attempt Input E
  unfolding parse_subject
  judge t first rest = elim (t.select (first ∷ rest)) [
    | returned subject ↦ parse_subject t subject
    | threw e ↦ failed e (some (t.name, first))
  ]

  unfoldable pub read_ending :
      (String → ℕ → E) → List (ControlTool Input E) → GenerateResult Input → Attempt Input E
  unfolding called sort_by_precedence judge
  read_ending no_decision control r = elim (sort_by_precedence (called r.tool_calls control)) [
    | [] ↦ failed (no_decision r.finish_reason r.text_length) none
    | (t, []) ∷ _ ↦ failed (no_decision r.finish_reason r.text_length) none
    | (t, x ∷ xs) ∷ _ ↦ judge t x xs
  ]
