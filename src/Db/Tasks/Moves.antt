-- ===== src/Db/Tasks/Moves.antt =====
-- What the operations of src/db/models/tasks.ts do to a task's state, one at a time.
use looping_core.Base.{
  ℕ, String, Bool, true, false, not, ◌&&◌, ◌||◌, Option, none, some, if◌then◌else◌, ◌≡◌, ◌≢◌, refl,
  sym, ap, ◌∙◌, inl, inr, ◌⊎◌, arith, str_eq, str_eq_iff, Bool-cases, ◌==◌,
}
use looping_core.Db.Tasks.Table.{
  TaskState, unspecified, submitted, working, input_required, auth_required, completed, failed,
  canceled, rejected, PlainTask, TaskRow, TaskTable, merged,
}
use looping_core.Db.Tasks.Model.{
  is_terminal, state_eq, is_refused, position, task_of, read_one, upsert,
}

at_position : ℕ → TaskState
at_position n =
    if n == 0
    then unspecified
    else if n == 1
    then submitted
    else if n == 2
    then working
    else if n == 3
    then input_required
    else if n == 4
    then auth_required
    else if n == 5
    then completed
    else if n == 6
    then failed
    else if n == 7
    then canceled
    else rejected

at_position-position : (a : TaskState) → at_position (position a) ≡ a
unfolding at_position position
at_position-position unspecified = refl
at_position-position submitted = refl
at_position-position working = refl
at_position-position input_required = refl
at_position-position auth_required = refl
at_position-position completed = refl
at_position-position failed = refl
at_position-position canceled = refl
at_position-position rejected = refl

pub state_eq→≡ : (a b : TaskState) → state_eq a b ≡ true → a ≡ b
unfolding state_eq
state_eq→≡ a b h =
    let same : position a ≡ position b = ground arith in
    sym (at_position-position a) ∙ ap at_position same ∙ at_position-position b

-- A Boolean disjunction that is false, taken apart.
refusals :
    (a b c d e f g : Bool)
    → (a && not b) || ((b && (not c && (not d && not a))) || (e && (f && not g))) ≡ false
    → e ≡ true
    → f ≡ true
    → g ≡ true
refusals a b c d e f g r x y = ground arith

pub is_refused_lem :
    (old new : TaskState)
    → is_refused old new ≡ false
    → is_terminal old ≡ true
    → is_terminal new ≡ true
    → new ≡ old
unfolding is_refused
is_refused_lem old new h o n = state_eq→≡ new old (
    refusals (state_eq old canceled) (state_eq new canceled) (state_eq old submitted)
      (state_eq old working) (is_terminal old) (is_terminal new) (state_eq new old) h o n)

pub canceled_is_refused : (new : TaskState) → is_refused canceled new ≡ false → new ≡ canceled
unfolding is_refused
canceled_is_refused new h = state_eq→≡ new canceled (ground arith)

-- A terminal state is none of the others.
pub terminal_differs :
    (t u : TaskState) → is_terminal t ≡ true → is_terminal u ≡ false → state_eq t u ≡ false
terminal_differs t u h n = elim (Bool-cases (state_eq t u)) [
  | inl same ↦ absurd (cc (sym h ∙ ap is_terminal (state_eq→≡ t u same) ∙ n))
  | inr other ↦ other
]

-- What is not terminal is let through, over every state but a canceled one.
pub open_passes :
    (old new : TaskState)
    → state_eq old canceled ≡ false
    → is_terminal new ≡ false
    → is_refused old new ≡ false
unfolding is_refused is_terminal
open_passes old new c n =
    passes (state_eq old canceled) (state_eq new canceled) (state_eq old submitted)
      (state_eq old working) (is_terminal old) (is_terminal new) (state_eq new old) c differs n
  where
    passes :
        (a b c d e f g : Bool)
        → a ≡ false
        → b ≡ false
        → f ≡ false
        → (a && not b) || ((b && (not c && (not d && not a))) || (e && (f && not g))) ≡ false
    passes a b c d e f g x y z = ground arith

    differs : state_eq new canceled ≡ false
    differs = elim (Bool-cases (state_eq new canceled)) [
      | inl same ↦ absurd (cc (sym n ∙ ap is_terminal (state_eq→≡ new canceled same)))
      | inr other ↦ other
    ]

pub same_or_not : (a b : String) → (a ≡ b) ⊎ (a ≢ b)
same_or_not a b = elim (Bool-cases (str_eq a b)) [
  | inl same ↦ inl ((str_eq_iff a b).0 same)
  | inr other ↦ inr (λ e. cc (other, (str_eq_iff a b).1 e))
]

module _ {Body : Type 0} (table : TaskTable Body) where
  open table use {State, by_id, upserted, upserted_other}

  merged-task :
      (task : PlainTask Body) (r : TaskRow Body) (f : TaskRow Body → TaskRow Body)
      (o : Option (TaskRow Body))
      → r.task ≡ task
      → ((old : TaskRow Body) → (f old).task ≡ task)
      → task_of (some (merged r f o)) ≡ some task
  merged-task task r f none a b = ap some a
  merged-task task r f (some old) a b = ap some (b old)

  pub read_one-upsert :
      (now : ℕ) (task : PlainTask Body) (s : State)
      → read_one table task.id (upsert table now task s) ≡ some task
  unfolding read_one upsert
  read_one-upsert now task s =
      ap task_of (upserted _ _ s (λ x. refl))
      ∙ merged-task task _ _ (by_id task.id s) refl (λ old. refl)

  pub read_one-upsert_other :
      (now : ℕ) (task : PlainTask Body) (s : State) (k : String)
      → k ≢ task.id
      → read_one table k (upsert table now task s) ≡ read_one table k s
  unfolding read_one upsert
  read_one-upsert_other now task s k h = ap task_of (upserted_other _ _ s k (λ x. refl) h)
