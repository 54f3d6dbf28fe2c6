-- ===== src/Db/Tasks/Examples.antt =====
-- A task table in memory, and the promises of src/db/models/tasks.ts at runs on it.
use looping_core.Base.{
  String, Bool, true, false, Option, none, some, ◌≡◌, ◌≢◌, refl, sym, ap, ◌∙◌, List, [], ◌∷◌, All,
  str_eq, str_eq_iff, if◌then◌else◌, Bool-cases, inl, inr,
}
use looping_core.Db.Tasks.Table.{
  TaskState, submitted, working, completed, failed, canceled, PlainTask, TaskRow, TaskTable, merged,
}
use looping_core.Db.Tasks.Model.{is_terminal, state_eq, read_one, begin, save}
use looping_core.Db.Tasks.Forever.{saves, marks, cancels, Saves, run}
use looping_core.Db.Tasks.Promises.{InState, canceled_forever, terminal_forever, save_reopens}

abbrev pub Row : Type 0
Row = TaskRow String

abbrev pub Rows : Type 0
Rows = List Row

unfoldable pub row_of : String → Rows → Option Row
row_of k [] = none
row_of k (x ∷ xs) = if str_eq x.task_id k then some x else row_of k xs

unfoldable pub sent_by : Option String → String → Bool
sent_by none m = false
sent_by (some n) m = str_eq n m

unfoldable pub row_for : String → Rows → Option Row
unfolding sent_by
row_for m [] = none
row_for m (x ∷ xs) = if sent_by x.message_id m then some x else row_for m xs

abbrev pub insert_row : Row → Rows → Option Row → Option Rows
insert_row r s none = some (r ∷ s)
insert_row r s (some old) = none

-- The newest version of a row stands first.
abbrev pub put_row : Row → (Row → Row) → Rows → Rows
put_row r f s = merged r f (row_of r.task_id s) ∷ s

pub row_of-head : (x : Row) (k : String) (s : Rows) → x.task_id ≡ k → row_of k (x ∷ s) ≡ some x
unfolding row_of
row_of-head x k s e = rw ((str_eq_iff x.task_id k).1 e) refl

pub row_of-tail : (x : Row) (k : String) (s : Rows) → k ≢ x.task_id → row_of k (x ∷ s) ≡ row_of k s
unfolding row_of
row_of-tail x k s h = elim (Bool-cases (str_eq x.task_id k)) [
  | inl same ↦ absurd (h (sym ((str_eq_iff x.task_id k).0 same)))
  | inr other ↦ rw other
]

pub row_of-key : (k : String) (s : Rows) (x : Row) → row_of k s ≡ some x → x.task_id ≡ k
unfolding row_of
row_of-key k [] x h = cc
row_of-key k (y ∷ s) x h = elim (Bool-cases (str_eq y.task_id k)) [
  | inl same ↦
      let found : some y ≡ some x = rw same at h in
      let e : y ≡ x = cc in sym (ap (λ z. z.task_id) e) ∙ (str_eq_iff y.task_id k).0 same
  | inr other ↦ row_of-key k s x (rw other at h)
]

pub row_for-head :
    (x : Row) (m : String) (s : Rows) → x.message_id ≡ some m → row_for m (x ∷ s) ≡ some x
unfolding row_for
row_for-head x m s e = rw (row_for, e, (str_eq_iff m m).1 refl) refl

merged-key :
    (r : Row) (f : Row → Row) (o : Option Row)
    → ((x : Row) → (f x).task_id ≡ x.task_id)
    → ((x : Row) → o ≡ some x → x.task_id ≡ r.task_id)
    → (merged r f o).task_id ≡ r.task_id
merged-key r f none h k = refl
merged-key r f (some x) h k = h x ∙ k x refl

pub inserted_row :
    (r : Row) (s s' : Rows) (o : Option Row) → insert_row r s o ≡ some s' → r ∷ s ≡ s'
inserted_row r s s' none h = cc
inserted_row r s s' (some x) h = cc

pub put_row-key :
    (r : Row) (f : Row → Row) (s : Rows)
    → ((x : Row) → (f x).task_id ≡ x.task_id)
    → (merged r f (row_of r.task_id s)).task_id ≡ r.task_id
put_row-key r f s h = merged-key r f (row_of r.task_id s) h (row_of-key r.task_id s)

abbrev pub rows_table : TaskTable String
rows_table = record {
  State = Rows;
  by_id = row_of;
  by_message = row_for;
  insert = λ r s. insert_row r s (row_of r.task_id s);
  upsert_row = put_row;
  inserted = λ r s s' h.
      ap (row_of r.task_id) (sym (inserted_row r s s' (row_of r.task_id s) h))
      ∙ row_of-head r r.task_id s refl;
  inserted_message = λ r s s' m h e.
      ap (row_for m) (sym (inserted_row r s s' (row_of r.task_id s) h)) ∙ row_for-head r m s e;
  insert_other = λ r s s' k h n.
      ap (row_of k) (sym (inserted_row r s s' (row_of r.task_id s) h)) ∙ row_of-tail r k s n;
  insert_taken = λ r old s h. ap (insert_row r s) h;
  upserted =
      λ r f s h. row_of-head (merged r f (row_of r.task_id s)) r.task_id s (put_row-key r f s h);
  upserted_other = λ r f s k h n.
      row_of-tail (merged r f (row_of r.task_id s)) k s (λ e. n (e ∙ put_row-key r f s h));
}

abbrev pub task_in : TaskState → PlainTask String
task_in state = record { id = "t"; context_id = "c"; state = state; timestamp = 1; body = "" }

abbrev pub row_in : TaskState → Row
row_in state = record {
  task_id = "t";
  message_id = some "m";
  context_id = "c";
  state = state;
  task = task_in state;
  created_at = 1;
  updated_at = 1;
}

one_row-IsKeyed :
    (state : TaskState) (k : String) (t : PlainTask String)
    → read_one rows_table k (row_in state ∷ []) ≡ some t
    → t.id ≡ k
unfolding read_one row_of
one_row-IsKeyed state k t h = elim (Bool-cases (str_eq "t" k)) [
  | inl same ↦
      let found : some (task_in state) ≡ some t = rw same at h in
      let e : task_in state ≡ t = cc in sym (ap (λ z. z.id) e) ∙ (str_eq_iff "t" k).0 same
  | inr other ↦ absurd (cc (rw other at h))
]

one_row-InState : (state : TaskState) → InState rows_table state "t" (row_in state ∷ [])
unfolding read_one row_of
one_row-InState state = record {
  keyed = one_row-IsKeyed state;
  task = task_in state;
  stored = refl;
  admitted = refl;
}

canceled_forever_example :
    InState rows_table canceled "t"
      (run rows_table (saves 2 (task_in completed) ∷ marks 3 "t" ∷ []) (row_in canceled ∷ []))
canceled_forever_example =
    canceled_forever rows_table "t" (saves 2 (task_in completed) ∷ marks 3 "t" ∷ [])
      (row_in canceled ∷ []) (one_row-InState canceled)

only_failures :
    All
      (Saves {Body = String} (λ t. is_terminal t ≡ true))
      (saves 2 (task_in failed) ∷ cancels 3 "t" ∷ [])
unfolding is_terminal
only_failures = (refl, (tt, tt))

completed-is_terminal : is_terminal completed ≡ true
unfolding is_terminal
completed-is_terminal = refl

terminal_forever_example :
    InState rows_table completed "t"
      (run rows_table (saves 2 (task_in failed) ∷ cancels 3 "t" ∷ []) (row_in completed ∷ []))
terminal_forever_example =
    terminal_forever rows_table completed "t" (saves 2 (task_in failed) ∷ cancels 3 "t" ∷ [])
      (row_in completed ∷ []) completed-is_terminal only_failures (one_row-InState completed)

first_dispatch :
    begin rows_table 1 "" "m" "t" "c" [] ≡ some (task_in submitted, row_in submitted ∷ [])
unfolding begin row_of row_for
first_dispatch = refl

finished : read_one rows_table "t" (row_in completed ∷ []) ≡ some (task_in completed)
unfolding read_one row_of
finished = refl

completed_is_not_canceled : state_eq completed canceled ≡ false
unfolding state_eq
completed_is_not_canceled = refl

working_is_open : is_terminal working ≡ false
unfolding is_terminal
working_is_open = refl

save_reopens_example :
    read_one rows_table "t" (save rows_table 2 (task_in working) (row_in completed ∷ [])).1
    ≡ some (task_in working)
save_reopens_example =
    save_reopens rows_table 2 (row_in completed ∷ []) (task_in working) (task_in completed) finished
      completed-is_terminal completed_is_not_canceled working_is_open
