-- ===== src/Round/Chunk/Prepared.antt =====
-- src/round/agent.ts, `prepareChunk`: what a preparation leaves of the row.
use looping_core.Base.{
  ℕ, String, true, false, Option, none, some, Outcome, returned, threw, ◌≡◌, refl, Bool-cases, ◌⊎◌,
  inl, inr,
}
use looping_core.Contract.Recipe.{ResolvedRecipe, ValidatedRecipe, RecipeFault, validate_recipe}
use looping_core.Db.Subtasks.Model.{
  is_live, is_running, is_pending, get_subtask, beginning, start, fail,
}
use looping_core.Db.Subtasks.Table.{Subtask, SubtaskTable}
use looping_core.Db.Tasks.Table.{TaskTable}
use looping_core.Round.Agent.{is_task_canceled}
use looping_core.Subtasks.Types.{SubtaskStatus}
use looping_core.Subagent.Prompt.{Assignment}
use looping_core.Round.Chunk.Env.{IsOnly, ChildEnv}
use looping_core.Round.Chunk.Prepare.{
  terminal, ready, World, Preparation, with_subtasks, end_with, prepare_canceled, refuse,
  make_ready, assemble, resume_or_end, claim_row, prepare_valid, prepare_recipe, prepare_row,
}
use looping_core.Round.Chunk.Rows.{fail_ends, start_ends, transition-IsOnly}

module _ {Body : Type 0} (tasks : TaskTable Body) (subtasks : SubtaskTable)
    (env : ChildEnv tasks subtasks) where
  open env use {E, Rest, Runtime, Event}

  -- A status is that of the row now, and the row has ended or its Task is canceled.
  pub record IsOver (task_id : String) (id : ℕ) (status : SubtaskStatus)
      (w : World tasks subtasks env) : Type 0 where
    pub row : Subtask
    pub found : get_subtask subtasks id w.subtask_rows ≡ some row
    pub says : status ≡ row.status
    pub over : (is_live row.status ≡ false) ⊎ (is_task_canceled tasks task_id w.task_rows ≡ true)

  -- What a preparation leaves for the chunk.
  abbrev pub IsPrepared : String → ℕ → Preparation tasks subtasks env → Type 0
  IsPrepared task_id id (returned (terminal r), w) = IsOver task_id id r.status w
  IsPrepared task_id id (returned (ready request v name runtime), w) =
      (request.task_id ≡ task_id) × IsOnly id (subtasks.rows w.subtask_rows)
  IsPrepared task_id id (threw e, w) = Unit

  end_with-IsPrepared :
      (task_id : String) (id : ℕ) (o : Option Subtask) (w : World tasks subtasks env)
      → get_subtask subtasks id w.subtask_rows ≡ o
      → ((r : Subtask)
          → o ≡ some r
          → (is_live r.status ≡ false) ⊎ (is_task_canceled tasks task_id w.task_rows ≡ true))
      → IsPrepared task_id id (end_with tasks subtasks env id o w)
  unfolding end_with
  end_with-IsPrepared task_id id none w h k = tt
  end_with-IsPrepared task_id id (some r) w h k = record {
    row = r;
    found = h;
    says = refl;
    over = k r refl;
  }

  refuse-IsPrepared :
      (task_id : String) (now id : ℕ) (key : String) (version : ℕ) (message : String)
      (w : World tasks subtasks env)
      → IsPrepared task_id id (refuse tasks subtasks env now id key version message w)
  unfolding refuse
  refuse-IsPrepared task_id now id key version message w =
      let begun = (start subtasks now id key version w.subtask_rows).1 in
      let failing = with_subtasks tasks subtasks env (fail subtasks now id message begun).1 w in
      end_with-IsPrepared task_id id (get_subtask subtasks id failing.subtask_rows) failing refl
        (λ r h. inl (fail_ends subtasks env.selected now id message begun r h))

  make_ready-IsPrepared :
      (task_id : String) (id : ℕ) (request : Assignment) (v : ValidatedRecipe) (name : String)
      (o : Outcome E Runtime × Rest) (w : World tasks subtasks env)
      → request.task_id ≡ task_id
      → IsOnly id (subtasks.rows w.subtask_rows)
      → IsPrepared task_id id (make_ready tasks subtasks env request v name o w)
  unfolding make_ready
  make_ready-IsPrepared task_id id request v name (returned runtime, x) w same only = (same, only)
  make_ready-IsPrepared task_id id request v name (threw e, x) w same only = tt

  assemble-IsPrepared :
      (id : ℕ) (r : Subtask) (v : ValidatedRecipe) (w : World tasks subtasks env)
      → IsOnly id (subtasks.rows w.subtask_rows)
      → IsPrepared r.task_id id (assemble tasks subtasks env id r v w)
  unfolding assemble
  assemble-IsPrepared id r v w only = make_ready-IsPrepared r.task_id id _ v _ _ w refl only

  resume_or_end-IsPrepared :
      (id : ℕ) (r : Subtask) (v : ValidatedRecipe) (o : Option Subtask)
      (w : World tasks subtasks env)
      → IsOnly id (subtasks.rows w.subtask_rows)
      → get_subtask subtasks id w.subtask_rows ≡ o
      → ((q : Subtask) → o ≡ some q → is_running q.status ≡ false → is_live q.status ≡ false)
      → IsPrepared r.task_id id (resume_or_end tasks subtasks env id r v o w)
  unfolding resume_or_end
  resume_or_end-IsPrepared id r v none w only h k = tt
  resume_or_end-IsPrepared id r v (some q) w only h k = elim (Bool-cases (is_running q.status)) [
    | inl runs ↦ rw runs (assemble-IsPrepared id r v w only)
    | inr stopped ↦
        rw stopped (record { row = q; found = h; says = refl; over = inl (k q refl stopped) })
  ]

  claim_row-IsPrepared :
      (now id : ℕ) (r : Subtask) (v : ValidatedRecipe) (w : World tasks subtasks env)
      → IsOnly id (subtasks.rows w.subtask_rows)
      → IsPrepared r.task_id id (claim_row tasks subtasks env now id r v w)
  unfolding claim_row start
  claim_row-IsPrepared now id r v w only =
      let claimed = start subtasks now id v.key v.version w.subtask_rows in
      let kept =
        transition-IsOnly subtasks env.selected now id is_pending (beginning v.key v.version)
          w.subtask_rows (λ q. refl) only in
      elim (Bool-cases claimed.0) [
        | inl won ↦ rw won (assemble-IsPrepared id r v _ kept)
        | inr lost ↦ rw lost (
            resume_or_end-IsPrepared id r v (get_subtask subtasks id claimed.1)
              (with_subtasks tasks subtasks env claimed.1 w) kept refl
              (λ q h stopped.
                start_ends subtasks env.selected now id v.key v.version w.subtask_rows q lost h
                  stopped))
      ]

  prepare_valid-IsPrepared :
      (now id : ℕ) (r : Subtask) (recipe : ResolvedRecipe) (o : Outcome RecipeFault ValidatedRecipe)
      (w : World tasks subtasks env)
      → IsOnly id (subtasks.rows w.subtask_rows)
      → IsPrepared r.task_id id (prepare_valid tasks subtasks env now id r recipe o w)
  unfolding prepare_valid
  prepare_valid-IsPrepared now id r recipe (returned v) w only =
      claim_row-IsPrepared now id r v w only
  prepare_valid-IsPrepared now id r recipe (threw f) w only =
      refuse-IsPrepared r.task_id now id recipe.key recipe.version (env.unusable recipe f) w

  prepare_recipe-IsPrepared :
      (now id : ℕ) (r : Subtask) (o : Option ResolvedRecipe) (w : World tasks subtasks env)
      → IsOnly id (subtasks.rows w.subtask_rows)
      → IsPrepared r.task_id id (prepare_recipe tasks subtasks env now id r o w)
  unfolding prepare_recipe
  prepare_recipe-IsPrepared now id r none w only =
      refuse-IsPrepared r.task_id now id r.type 0 (env.unknown_type r.type) w
  prepare_recipe-IsPrepared now id r (some recipe) w only =
      prepare_valid-IsPrepared now id r recipe (validate_recipe recipe env.policy) w only

  prepare_canceled-IsPrepared :
      (now id : ℕ) (r : Subtask) (w : World tasks subtasks env)
      → get_subtask subtasks id w.subtask_rows ≡ some r
      → is_task_canceled tasks r.task_id w.task_rows ≡ true
      → IsPrepared r.task_id id (prepare_canceled tasks subtasks env now id r w)
  unfolding prepare_canceled
  prepare_canceled-IsPrepared now id r w h stopped = elim (Bool-cases (is_running r.status)) [
    | inl runs ↦ rw runs (end_with-IsPrepared r.task_id id _ _ refl (λ q e. inr stopped))
    | inr waits ↦ rw waits (record { row = r; found = h; says = refl; over = inr stopped })
  ]

  pub prepare_row-IsPrepared :
      (now id : ℕ) (r : Subtask) (w : World tasks subtasks env)
      → IsOnly id (subtasks.rows w.subtask_rows)
      → get_subtask subtasks id w.subtask_rows ≡ some r
      → IsPrepared r.task_id id (prepare_row tasks subtasks env now id (some r) w)
  unfolding prepare_row
  prepare_row-IsPrepared now id r w only h = elim (Bool-cases (is_live r.status)) [
    | inr ended ↦ rw ended (record { row = r; found = h; says = refl; over = inl ended })
    | inl live ↦ elim (Bool-cases (is_task_canceled tasks r.task_id w.task_rows)) [
      | inl stopped ↦ rw (live, stopped) (prepare_canceled-IsPrepared now id r w h stopped)
      | inr going ↦
          rw (live, going) (prepare_recipe-IsPrepared now id r (env.resolve_recipe r.type) w only)
    ]
  ]
