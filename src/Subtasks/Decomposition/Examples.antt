-- ===== src/Subtasks/Decomposition/Examples.antt =====
-- Proposals resolved by src/subtasks/decomposition.ts against a catalog of two messages.
use looping_core.Base.{
  String, List, [], ◌∷◌, All, length, Option, none, some, Outcome, returned, threw, ◌≡◌, refl, show,
  trim,
}
use looping_core.Subtasks.Types.{user, assistant, SubtaskParams, SubtaskReference}
use looping_core.Round.Render.{ReferenceCatalogEntry}
use looping_core.Subtasks.Decomposition.{
  SubtaskProposal, ParamsFault, invalid, resolve_references, resolve_decomposition, draft_of,
}
use looping_core.Subtasks.Decomposition.Verbatim.{Quotes, resolve_decomposition-Quotes}

abbrev catalog : List ReferenceCatalogEntry
catalog =
    record { index = 1; role = user; text = "hello" }
    ∷ record { index = 2; role = assistant; text = "hi there" }
    ∷ []

abbrev any_params : String → Option SubtaskParams → Outcome (ParamsFault String) SubtaskParams
any_params type none = returned []
any_params type (some params) = returned params

abbrev task : SubtaskProposal
task = record {
  type = " search ";
  prompt = "find it\n";
  reference_indexes = some (2 ∷ 1 ∷ []);
  params = none;
}

abbrev quotes : List SubtaskReference
quotes =
    record { role = user; text = "hello" } ∷ record { role = assistant; text = "hi there" } ∷ []

two_cited :
    resolve_references {E = String} "subtask 1" (some (2 ∷ 1 ∷ [])) catalog ≡ returned quotes
unfolding resolve_references
two_cited = refl

cited_twice :
    resolve_references {E = String} "subtask 1" (some (2 ∷ 2 ∷ [])) catalog
    ≡ threw (invalid "subtask 1 references index 2 more than once")
unfolding resolve_references show
cited_twice = refl

unknown_cited :
    resolve_references {E = String} "subtask 1" (some (3 ∷ [])) catalog
    ≡ threw (invalid "subtask 1 references unknown catalog index 3 (catalog has 2 entries)")
unfolding resolve_references show
unknown_cited = refl

resolved :
    resolve_decomposition any_params catalog (record { reply = "On it. "; subtasks = task ∷ [] })
    ≡ returned ("On it.", draft_of task [] quotes ∷ [])
unfolding resolve_decomposition resolve_references draft_of trim
resolved = refl

resolve_decomposition-Quotes_example :
    All (λ d. Quotes catalog d.references) (draft_of task [] quotes ∷ [])
    × (length (draft_of task [] quotes ∷ []) ≡ 1)
resolve_decomposition-Quotes_example =
    resolve_decomposition-Quotes catalog any_params
      (record { reply = "On it. "; subtasks = task ∷ [] }) "On it." (draft_of task [] quotes ∷ [])
      resolved
