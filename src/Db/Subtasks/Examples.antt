-- ===== src/Db/Subtasks/Examples.antt =====
-- A subtask table in memory, and the promises of src/db/models/subtasks.ts at runs on it.
use looping_core.Base.{
  Bool, true, false, List, [], ◌∷◌, ◌++◌, map, any, keep_if, length, str_eq, if◌then◌else◌,
  returned, ◌≡◌, refl, inl, inr, Bool-cases,
}
use looping_core.Subtasks.Types.{SubtaskDraft}
use looping_core.Db.Subtasks.Table.{Subtask, SubtaskTable}
use looping_core.Db.Subtasks.Model.{
  list_round, draft_row, completion, create_decomposition, is_live,
}
use looping_core.Db.Subtasks.Settled.{fails, cancels_pending, run, Ended, settled_forever}
use looping_core.Db.Subtasks.Rounds.{create_decomposition_replay}

pub keep_if-none {ℓ} :
    {A : Type ℓ} (p : A → Bool) (xs : List A) → keep_if p xs ≡ [] → any p xs ≡ false
keep_if-none p [] h = refl
keep_if-none p (x ∷ xs) h = elim (Bool-cases (p x)) [
  | inl yes_x ↦ absurd (cc (rw yes_x at h))
  | inr no_x ↦ rw no_x (keep_if-none p xs (rw no_x at h))
]

abbrev pub rows_table : SubtaskTable
rows_table = record {
  State = List Subtask;
  rows = λ s. s;
  select = keep_if;
  fresh_id = length;
  insert = λ r s. s ++ r ∷ [];
  update = λ p f s. map (λ r. if p r then f r else r) s;
  selected_none = keep_if-none;
  inserted = λ r s. refl;
  updated = λ p f s. refl;
}

abbrev pub draft : SubtaskDraft
draft = record { type = "search"; prompt = "find it"; references = []; params = [] }

abbrev pub first_row : Subtask
first_row = draft_row 1 "t" 0 0 0 draft

abbrev done_row : Subtask
done_row = completion 2 ("found" ∷ []) first_row

done_row-Ended : Ended rows_table 0 done_row (done_row ∷ [])
unfolding completion is_live
done_row-Ended = record { here = refl; over = refl }

settled_forever_example :
    Ended rows_table 0 done_row
      (run rows_table (fails 3 0 "late" ∷ cancels_pending 4 "t" ∷ []) (done_row ∷ []))
settled_forever_example =
    settled_forever rows_table 0 done_row (fails 3 0 "late" ∷ cancels_pending 4 "t" ∷ [])
      (done_row ∷ []) done_row-Ended

own_row : str_eq first_row.task_id "t" ≡ true
unfolding draft_row
own_row = refl

nothing_yet : list_round rows_table "t" 0 [] ≡ []
unfolding list_round
nothing_yet = refl

first_creation :
    create_decomposition rows_table 8 1 "t" 0 (draft ∷ []) []
    ≡ (returned (first_row ∷ []), first_row ∷ [])
unfolding create_decomposition draft_row list_round
first_creation = refl

create_decomposition_replay_example :
    create_decomposition rows_table 8 9 "t" 0 [] (first_row ∷ [])
    ≡ (returned (first_row ∷ []), first_row ∷ [])
create_decomposition_replay_example =
    create_decomposition_replay rows_table 8 1 9 "t" 0 (draft ∷ []) [] [] (first_row ∷ [])
      (first_row ∷ []) first_creation

pub own_round : list_round rows_table "t" 0 (first_row ∷ []) ≡ first_row ∷ []
unfolding list_round draft_row
own_round = refl
