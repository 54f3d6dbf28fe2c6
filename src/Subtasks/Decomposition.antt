-- ===== src/Subtasks/Decomposition.antt =====
-- src/subtasks/decomposition.ts: a proposal that its schema has accepted becomes drafts, or is refused.
-- `validate_params` is `SubtaskTypeRegistry.validateParams` over the installed types' own schemas.
use Prim.Native.String.{◌++◌ as ◌<>◌}
use looping_core.Base.{
  ℕ, zero, suc, ◌+◌, String, Bool, true, false, ◌||◌, List, [], ◌∷◌, any, length, ltb, leb, ◌==◌,
  get_elem?, Option, none, some, Outcome, returned, threw, and_then, show, trim, if◌then◌else◌,
}
use looping_core.Subtasks.Types.{SubtaskReference, SubtaskParams, SubtaskDraft}
use looping_core.Round.Render.{ReferenceCatalogEntry}
pub mod Verbatim
pub mod Examples

pub record SubtaskProposal : Type 0 where
  pub type : String
  pub prompt : String
  pub reference_indexes : Option (List ℕ)
  pub params : Option SubtaskParams

pub record DecompositionProposal : Type 0 where
  pub reply : String
  pub subtasks : List SubtaskProposal

-- `SubtaskParamsError`, or any other throw of the validation.
pub data ParamsFault (E : Type 0) : Type 0 where
  params_error : String → ParamsFault E
  other_fault : E → ParamsFault E

-- `DecompositionValidationError`, the `TypeError` of an entry that is not there, or another throw.
pub data ResolveFault (E : Type 0) : Type 0 where
  invalid : String → ResolveFault E
  no_entry : ResolveFault E
  foreign : E → ResolveFault E

-- `sort((a, b) => a - b)`.
unfoldable pub insert_index : ℕ → List ℕ → List ℕ
insert_index i [] = i ∷ []
insert_index i (j ∷ js) = if leb i j then i ∷ j ∷ js else j ∷ insert_index i js

unfoldable pub sort_indexes : List ℕ → List ℕ
unfolding insert_index
sort_indexes [] = []
sort_indexes (i ∷ is) = insert_index i (sort_indexes is)

-- `catalog[index - 1]`.
unfoldable pub entry_at : List ReferenceCatalogEntry → ℕ → Option ReferenceCatalogEntry
entry_at catalog zero = none
entry_at catalog (suc i) = get_elem? catalog i

unfoldable pub subtask_label : ℕ → String
subtask_label index = "subtask " <> show (index + 1)

unfoldable pub draft_of : SubtaskProposal → SubtaskParams → List SubtaskReference → SubtaskDraft
draft_of p params references = record {
  type = trim p.type;
  prompt = trim p.prompt;
  references = references;
  params = params;
}

module _ {E : Type 0} where
  -- The loop over the indexes, with those that were seen.
  unfoldable pub check_indexes : String → ℕ → List ℕ → List ℕ → Outcome (ResolveFault E) (Unit {0})
  check_indexes label size seen [] = returned tt
  check_indexes label size seen (i ∷ is) =
      let rest = check_indexes label size (i ∷ seen) is in
      if any (λ j. j == i) seen
      then threw (invalid (label <> (" references index " <> (show i <> " more than once"))))
      else if ltb size i
      then threw (
          invalid
            (label <> (" references unknown catalog index " <> (show i <> catalog_size size))))
      else rest
    where
      catalog_size : ℕ → String
      catalog_size n =
          " (catalog has " <> (show n <> ((if n == 1 then " entry" else " entries") <> ")"))

  unfoldable pub copy_entry :
      Option ReferenceCatalogEntry → Outcome (ResolveFault E) SubtaskReference
  copy_entry none = threw no_entry
  copy_entry (some e) = returned (record { role = e.role; text = e.text })

  unfoldable pub copy_entries :
      List ReferenceCatalogEntry → List ℕ → Outcome (ResolveFault E) (List SubtaskReference)
  unfolding copy_entry entry_at
  copy_entries catalog [] = returned []
  copy_entries catalog (i ∷ is) =
      and_then (copy_entry (entry_at catalog i))
        λ r. and_then (copy_entries catalog is) λ rs. returned (r ∷ rs)

  unfoldable pub resolve_references :
      String
      → Option (List ℕ)
      → List ReferenceCatalogEntry
      → Outcome (ResolveFault E) (List SubtaskReference)
  unfolding check_indexes sort_indexes copy_entries
  resolve_references label none catalog = returned []
  resolve_references label (some indexes) catalog =
      and_then (check_indexes label (length catalog) [] indexes)
        λ _. copy_entries catalog (sort_indexes indexes)

  unfoldable pub validated :
      String → Outcome (ParamsFault E) SubtaskParams → Outcome (ResolveFault E) SubtaskParams
  validated label (returned params) = returned params
  validated label (threw (params_error text)) = threw (invalid (label <> (": " <> text)))
  validated label (threw (other_fault e)) = threw (foreign e)

  module _ (validate_params : String → Option SubtaskParams → Outcome (ParamsFault E) SubtaskParams)
      (catalog : List ReferenceCatalogEntry) where
    unfoldable pub resolve_subtask : ℕ → SubtaskProposal → Outcome (ResolveFault E) SubtaskDraft
    unfolding validated resolve_references subtask_label draft_of
    resolve_subtask index p =
        let label = subtask_label index in
        and_then (validated label (validate_params (trim p.type) p.params)) λ params.
          and_then (resolve_references label p.reference_indexes catalog)
            λ references. returned (draft_of p params references)

    unfoldable pub resolve_subtasks :
        ℕ → List SubtaskProposal → Outcome (ResolveFault E) (List SubtaskDraft)
    unfolding resolve_subtask
    resolve_subtasks index [] = returned []
    resolve_subtasks index (p ∷ ps) =
        and_then (resolve_subtask index p)
          λ d. and_then (resolve_subtasks (index + 1) ps) λ ds. returned (d ∷ ds)

    -- The acknowledgment and the drafts, in the order of the proposal.
    unfoldable pub resolve_decomposition :
        DecompositionProposal → Outcome (ResolveFault E) (String × List SubtaskDraft)
    unfolding resolve_subtasks
    resolve_decomposition p =
        and_then (resolve_subtasks 0 p.subtasks) λ drafts. returned (trim p.reply, drafts)
