-- ===== src/Db/Subtasks/Model.antt =====
-- src/db/models/subtasks.ts, `makeSubtasks`: the operations. `now` is the clock's reading; an update
-- returns whether a row matched. The 30-day `cleanup` is left out.
use looping_core.Base.{
  ℕ, suc, max, String, Bool, true, false, not, ◌&&◌, ◌||◌, List, [], ◌∷◌, any, length, ltb, ◌==◌,
  str_eq, is_blank, if◌then◌else◌, Option, none, some, Outcome, returned, threw,
}
use looping_core.Subtasks.Types.{
  SubtaskStatus, pending, running, completed, failed, canceled, SubtaskDraft,
}
use looping_core.Db.Subtasks.Table.{Subtask, SubtaskTable}

unfoldable pub is_pending : SubtaskStatus → Bool
is_pending s = elim s [ pending ↦ true | _ ↦ false ]

unfoldable pub is_running : SubtaskStatus → Bool
is_running s = elim s [ running ↦ true | _ ↦ false ]

unfoldable pub is_live : SubtaskStatus → Bool
unfolding is_pending is_running
is_live s = is_running s || is_pending s

-- What the model throws: a bad count of drafts, or a completion with no text.
pub data SubtaskFault : Type 0 where
  bad_count : ℕ → SubtaskFault
  no_text : SubtaskFault

-- One above the highest ordinal of a Task, or 0 where it has no row.
unfoldable pub ordinals_end : String → List Subtask → ℕ
ordinals_end task_id [] = 0
ordinals_end task_id (r ∷ rs) =
    let rest = ordinals_end task_id rs in
    if str_eq r.task_id task_id then max (suc r.ordinal) rest else rest

unfoldable pub draft_row : ℕ → String → ℕ → ℕ → ℕ → SubtaskDraft → Subtask
draft_row now task_id round ordinal id d = record {
  id = id;
  task_id = task_id;
  round = round;
  ordinal = ordinal;
  type = d.type;
  recipe_id = none;
  recipe_version = none;
  prompt = d.prompt;
  references = d.references;
  params = d.params;
  status = pending;
  result_parts = none;
  error = none;
  created_at = now;
  updated_at = now;
  completed_at = none;
}

-- What each transition sets.
unfoldable pub beginning : String → ℕ → Subtask → Subtask
beginning recipe_id recipe_version r = record r {
  status = running;
  recipe_id = some recipe_id;
  recipe_version = some recipe_version;
}

unfoldable pub completion : ℕ → List String → Subtask → Subtask
completion now parts r = record r {
  status = completed;
  result_parts = some parts;
  completed_at = some now;
}

unfoldable pub failure : ℕ → String → Subtask → Subtask
failure now error r = record r { status = failed; error = some error; completed_at = some now }

unfoldable pub cancellation : ℕ → Subtask → Subtask
cancellation now r = record r { status = canceled; completed_at = some now }

unfoldable pub in_round : String → ℕ → Subtask → Bool
in_round task_id round r = str_eq r.task_id task_id && r.round == round

abbrev pub first_of : List Subtask → Option Subtask
first_of [] = none
first_of (r ∷ rs) = some r

module _ (table : SubtaskTable) where
  open table use {State, rows, select, fresh_id, insert, update}

  unfoldable pub list_round : String → ℕ → State → List Subtask
  unfolding in_round
  list_round task_id round s = select (in_round task_id round) s

  unfoldable pub get_subtask : ℕ → State → Option Subtask
  get_subtask id s = first_of (select (λ r. r.id == id) s)

  -- `set` with the time of the change, on the row `id` while its status is one of those named.
  unfoldable pub transition :
      ℕ → ℕ → (SubtaskStatus → Bool) → (Subtask → Subtask) → State → Bool × State
  transition now id from set s =
      let matches : Subtask → Bool = λ r. r.id == id && from r.status in
      let change : Subtask → Subtask = λ r. record (set r) { updated_at = now } in
      (any matches (rows s), update matches change s)

  unfoldable pub start : ℕ → ℕ → String → ℕ → State → Bool × State
  unfolding transition is_pending beginning
  start now id recipe_id recipe_version s =
      transition now id is_pending (beginning recipe_id recipe_version) s

  -- A throw leaves the table as it was.
  unfoldable pub complete : ℕ → ℕ → List String → State → Outcome SubtaskFault Bool × State
  unfolding transition is_running completion
  complete now id parts s =
      let (applied, s') = transition now id is_running (completion now parts) s in
      if any (λ t. not (is_blank t)) parts then (returned applied, s') else (threw no_text, s)

  unfoldable pub fail : ℕ → ℕ → String → State → Bool × State
  unfolding transition is_live failure
  fail now id error s = transition now id is_live (failure now error) s

  unfoldable pub cancel_running : ℕ → ℕ → State → Bool × State
  unfolding transition is_running cancellation
  cancel_running now id s = transition now id is_running (cancellation now) s

  unfoldable pub cancel_pending : ℕ → String → State → State
  unfolding is_pending
  cancel_pending now task_id s =
      let matches : Subtask → Bool = λ r. str_eq r.task_id task_id && is_pending r.status in
      let change : Subtask → Subtask =
        λ r. record r { status = canceled; updated_at = now; completed_at = some now } in
      update matches change s

  -- The rows of a round's drafts, at consecutive ordinals.
  unfoldable pub insert_drafts : ℕ → String → ℕ → ℕ → List SubtaskDraft → State → State
  insert_drafts now task_id round ordinal [] s = s
  insert_drafts now task_id round ordinal (d ∷ ds) s =
      insert_drafts now task_id round (suc ordinal) ds
        (insert (draft_row now task_id round ordinal (fresh_id s) d) s)

  unfoldable pub create_new :
      ℕ → ℕ → String → ℕ → List SubtaskDraft → State → Outcome SubtaskFault (List Subtask) × State
  unfolding list_round insert_drafts draft_row ordinals_end
  create_new max_subtasks now task_id round drafts s =
      let s' = insert_drafts now task_id round (ordinals_end task_id (rows s)) drafts s in
      if ltb (length drafts) 1 || ltb max_subtasks (length drafts)
      then (threw (bad_count (length drafts)), s)
      else (returned (list_round task_id round s'), s')

  unfoldable pub create_over :
      ℕ
      → ℕ
      → String
      → ℕ
      → List SubtaskDraft
      → State
      → List Subtask
      → Outcome SubtaskFault (List Subtask) × State
  unfolding create_new
  create_over max_subtasks now task_id round drafts s [] =
      create_new max_subtasks now task_id round drafts s
  create_over max_subtasks now task_id round drafts s (r ∷ rs) = (returned (r ∷ rs), s)

  -- The transaction: a round that has rows keeps them.
  unfoldable pub create_decomposition :
      ℕ → ℕ → String → ℕ → List SubtaskDraft → State → Outcome SubtaskFault (List Subtask) × State
  unfolding create_over list_round
  create_decomposition max_subtasks now task_id round drafts s =
      create_over max_subtasks now task_id round drafts s (list_round task_id round s)
