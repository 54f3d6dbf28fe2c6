-- ===== src/Agent/ControlTools.antt =====
-- src/agent/control.ts, `controlTools`: the endings that one round offers. The schemas are zod's
-- (`safeParse`), and enter as readings of an unchecked input: what it holds, or its issues in a line.
use Prim.Native.String.{◌++◌ as ◌<>◌}
use looping_core.Base.{
  ℕ, String, Bool, ◌&&◌, List, [], ◌∷◌, length, map, ltb, Option, none, some, Outcome, returned,
  threw, show, trim, if◌then◌else◌,
}
use looping_core.Agent.Control.{TurnDecision, reply, delegate, ControlTool}
use looping_core.Subtasks.Types.{SubtaskParams, SubtaskDraft}
use looping_core.Subtasks.Decomposition.{
  SubtaskProposal, DecompositionProposal, ParamsFault, ResolveFault, resolve_decomposition,
}
use looping_core.Round.Render.{ReferenceCatalogEntry}

-- A call as its schema accepts it: a param may be named and left empty.
pub record ParsedSubtask : Type 0 where
  pub type : String
  pub prompt : String
  pub reference_indexes : Option (List ℕ)
  pub params : Option (List (String × Option String))

pub record ParsedProposal : Type 0 where
  pub reply : String
  pub subtasks : List ParsedSubtask

unfoldable pub filled : List (String × Option String) → SubtaskParams
filled [] = []
filled ((key, none) ∷ ps) = filled ps
filled ((key, some value) ∷ ps) = (key, value) ∷ filled ps

unfoldable pub non_empty : SubtaskParams → Option SubtaskParams
non_empty [] = none
non_empty (p ∷ ps) = some (p ∷ ps)

unfoldable pub defined_params : Option (List (String × Option String)) → Option SubtaskParams
unfolding filled non_empty
defined_params none = none
defined_params (some ps) = non_empty (filled ps)

unfoldable pub proposal_of : ParsedProposal → DecompositionProposal
unfolding defined_params
proposal_of p = record {
  reply = p.reply;
  subtasks =
      map
        (λ s.
          let t : SubtaskProposal = record {
            type = s.type;
            prompt = s.prompt;
            reference_indexes = s.reference_indexes;
            params = defined_params s.params;
          } in
          t)
        p.subtasks;
}

-- The schemas, the installed types, and how errors are made.
pub record ControlEnv (Input E : Type 0) : Type 0 where
  pub read_reply : Input → Outcome String String
  pub read_proposal : Input → Outcome String ParsedProposal
  pub validate_params : String → Option SubtaskParams → Outcome (ParamsFault E) SubtaskParams
  pub type_count : ℕ
  pub control_error : String → E
  pub resolve_error : ResolveFault E → E
  pub absent : Input

unfoldable pub final_reply_tool_name : String
final_reply_tool_name = "final_reply"

unfoldable pub delegate_tool_name : String
delegate_tool_name = "delegate"

module _ {Input E : Type 0} (env : ControlEnv Input E) where
  -- `inputs.at(-1)`; a tool that was not called is never selected from.
  unfoldable pub select_last : List Input → Outcome E Input
  select_last [] = returned env.absent
  select_last (x ∷ []) = returned x
  select_last (x ∷ y ∷ ys) = select_last (y ∷ ys)

  unfoldable pub reply_of : Outcome String String → Outcome E TurnDecision
  unfolding final_reply_tool_name
  reply_of (returned text) = returned (reply (trim text))
  reply_of (threw issues) =
      threw (env.control_error (final_reply_tool_name <> (" input is invalid — " <> issues)))

  unfoldable pub final_reply_tool : ControlTool Input E
  unfolding select_last reply_of final_reply_tool_name
  final_reply_tool = record {
    name = final_reply_tool_name;
    precedence = 0;
    select = select_last;
    parse = λ input. reply_of (env.read_reply input);
  }

  unfoldable pub select_only : List Input → Outcome E Input
  unfolding delegate_tool_name
  select_only [] = returned env.absent
  select_only (x ∷ []) = returned x
  select_only (x ∷ y ∷ ys) = threw (
      env.control_error (
        delegate_tool_name
        <> (" was called "
            <> (show (length (x ∷ y ∷ ys))
                <> (" times in one turn. Delegate once, with every subtask this round needs in that "
                    <> "single call.")))))

  unfoldable pub resolved_of :
      Outcome (ResolveFault E) (String × List SubtaskDraft) → Outcome E TurnDecision
  resolved_of (returned (text, drafts)) = returned (delegate text drafts)
  resolved_of (threw fault) = threw (env.resolve_error fault)

  unfoldable pub delegate_of :
      List ReferenceCatalogEntry → Outcome String ParsedProposal → Outcome E TurnDecision
  unfolding resolved_of resolve_decomposition proposal_of delegate_tool_name
  delegate_of catalog (returned p) =
      resolved_of (resolve_decomposition env.validate_params catalog (proposal_of p))
  delegate_of catalog (threw issues) =
      threw (env.control_error (delegate_tool_name <> (" input is invalid — " <> issues)))

  unfoldable pub delegate_tool : List ReferenceCatalogEntry → ControlTool Input E
  unfolding select_only delegate_of delegate_tool_name
  delegate_tool catalog = record {
    name = delegate_tool_name;
    precedence = 1;
    select = select_only;
    parse = λ input. delegate_of catalog (env.read_proposal input);
  }

  -- `delegate` needs a round that may hand out work, and a type to hand it to.
  unfoldable pub control_tools : List ReferenceCatalogEntry → Bool → List (ControlTool Input E)
  unfolding final_reply_tool delegate_tool
  control_tools catalog delegable =
      if delegable && ltb 0 env.type_count
      then final_reply_tool ∷ delegate_tool catalog ∷ []
      else final_reply_tool ∷ []
