-- ===== src/Db/Subtasks/Settled.antt =====
-- A subtask of src/db/models/subtasks.ts that has ended is never written again.
use looping_core.Base.{
  ℕ, zero, suc, String, Bool, false, not, ◌&&◌, ◌||◌, List, [], ◌∷◌, map, any, length, ltb, str_eq,
  is_blank, if◌then◌else◌, some, get_elem?, get_elem?-append, ◌≡◌, ap, ◌∙◌, arith, inl, inr,
  Bool-cases,
}
use looping_core.Subtasks.Types.{SubtaskStatus, SubtaskDraft}
use looping_core.Db.Subtasks.Table.{Subtask, SubtaskTable}
use looping_core.Db.Subtasks.Model.{
  is_pending, is_running, is_live, transition, beginning, completion, failure, cancellation, start,
  complete, fail, cancel_running, cancel_pending, insert_drafts, create_new, create_over,
  create_decomposition, list_round,
}

-- A map that leaves an element alone.
get_elem?-map {ℓ} :
    {A : Type ℓ} (f : A → A) (xs : List A) (i : ℕ) (x : A)
    → f x ≡ x
    → get_elem? xs i ≡ some x
    → get_elem? (map f xs) i ≡ some x
get_elem?-map f [] i x e h = h
get_elem?-map f (y ∷ xs) zero x e h = let same : y ≡ x = cc in ap some (ap f same ∙ e)
get_elem?-map f (y ∷ xs) (suc i) x e h = get_elem?-map f xs i x e h

-- The calls that change rows, with the clock's reading.
pub data Op : Type 0 where
  creates : ℕ → ℕ → String → ℕ → List SubtaskDraft → Op
  starts : ℕ → ℕ → String → ℕ → Op
  completes : ℕ → ℕ → List String → Op
  fails : ℕ → ℕ → String → Op
  cancels_running : ℕ → ℕ → Op
  cancels_pending : ℕ → String → Op

module _ (table : SubtaskTable) where
  open table use {State, rows, insert, update}

  unfoldable pub apply : Op → State → State
  apply (creates limit now task_id round drafts) s =
      (create_decomposition table limit now task_id round drafts s).1
  apply (starts now id recipe version) s = (start table now id recipe version s).1
  apply (completes now id parts) s = (complete table now id parts s).1
  apply (fails now id error) s = (fail table now id error s).1
  apply (cancels_running now id) s = (cancel_running table now id s).1
  apply (cancels_pending now task_id) s = cancel_pending table now task_id s

  unfoldable pub run : List Op → State → State
  unfolding apply
  run [] s = s
  run (op ∷ ops) s = run ops (apply op s)

  -- The row `r`, ended, at the position `i` of the table.
  pub record Ended (i : ℕ) (r : Subtask) (s : State) : Type 0 where
    pub here : get_elem? (rows s) i ≡ some r
    pub over : is_live r.status ≡ false

  update-Ended :
      (i : ℕ) (r : Subtask) (s : State) (p : Subtask → Bool) (f : Subtask → Subtask)
      → p r ≡ false
      → Ended i r s
      → Ended i r (update p f s)
  update-Ended i r s p f h v = record {
    here =
        ap (λ rs. get_elem? rs i) (table.updated p f s)
        ∙ get_elem?-map (λ x. if p x then f x else x) (rows s) i r (rw h) v.here;
    over = v.over;
  }

  insert-Ended : (i : ℕ) (r new : Subtask) (s : State) → Ended i r s → Ended i r (insert new s)
  insert-Ended i r new s v = record {
    here =
        ap (λ rs. get_elem? rs i) (table.inserted new s)
        ∙ get_elem?-append (rows s) (new ∷ []) i r v.here;
    over = v.over;
  }

  insert_drafts-Ended :
      (i : ℕ) (r : Subtask) (now : ℕ) (task_id : String) (round ordinal : ℕ)
      (ds : List SubtaskDraft) (s : State)
      → Ended i r s
      → Ended i r (insert_drafts table now task_id round ordinal ds s)
  unfolding insert_drafts
  insert_drafts-Ended i r now task_id round ordinal [] s v = v
  insert_drafts-Ended i r now task_id round ordinal (d ∷ ds) s v =
      insert_drafts-Ended i r now task_id round (suc ordinal) ds _ (insert-Ended i r _ s v)

  transition-Ended :
      (i : ℕ) (r : Subtask) (now id : ℕ) (from : SubtaskStatus → Bool) (set : Subtask → Subtask)
      (s : State)
      → from r.status ≡ false
      → Ended i r s
      → Ended i r (transition table now id from set s).1
  unfolding transition
  transition-Ended i r now id from set s h v = update-Ended i r s _ _ (ground arith) v

  not_running : (t : SubtaskStatus) → is_live t ≡ false → is_running t ≡ false
  unfolding is_live
  not_running t h = ground arith

  not_pending : (t : SubtaskStatus) → is_live t ≡ false → is_pending t ≡ false
  unfolding is_live
  not_pending t h = ground arith

  create-Ended :
      (i : ℕ) (r : Subtask) (limit now : ℕ) (task_id : String) (round : ℕ) (ds : List SubtaskDraft)
      (s : State) (found : List Subtask)
      → Ended i r s
      → Ended i r (create_over table limit now task_id round ds s found).1
  unfolding create_over create_new
  create-Ended i r limit now task_id round ds s (x ∷ xs) v = v
  create-Ended i r limit now task_id round ds s [] v =
      elim (Bool-cases (ltb (length ds) 1 || ltb limit (length ds))) [
        | inl bad ↦ rw (create_over, create_new, bad) v
        | inr good ↦
            rw (create_over, create_new, good) (insert_drafts-Ended i r now task_id round _ ds s v)
      ]

  complete-Ended :
      (i : ℕ) (r : Subtask) (now id : ℕ) (parts : List String) (s : State)
      → Ended i r s
      → Ended i r (complete table now id parts s).1
  unfolding complete
  complete-Ended i r now id parts s v = elim (Bool-cases (any (λ t. not (is_blank t)) parts)) [
    | inl some_text ↦
        rw (complete, some_text)
          (transition-Ended i r now id is_running (completion now parts) s
            (not_running r.status v.over) v)
    | inr none_there ↦ rw (complete, none_there) v
  ]

  apply-Ended : (i : ℕ) (r : Subtask) (op : Op) (s : State) → Ended i r s → Ended i r (apply op s)
  unfolding apply create_decomposition start fail cancel_running cancel_pending
  apply-Ended i r (creates limit now task_id round drafts) s v =
      create-Ended i r limit now task_id round drafts s (list_round table task_id round s) v
  apply-Ended i r (starts now id recipe version) s v =
      transition-Ended i r now id is_pending (beginning recipe version) s
        (not_pending r.status v.over) v
  apply-Ended i r (completes now id parts) s v = complete-Ended i r now id parts s v
  apply-Ended i r (fails now id error) s v =
      transition-Ended i r now id is_live (failure now error) s v.over v
  apply-Ended i r (cancels_running now id) s v =
      transition-Ended i r now id is_running (cancellation now) s (not_running r.status v.over) v
  apply-Ended i r (cancels_pending now task_id) s v =
      update-Ended i r s _ _ (pend (str_eq r.task_id task_id) (not_pending r.status v.over)) v
    where
      pend : (b : Bool) {c : Bool} → c ≡ false → b && c ≡ false
      pend b h = ground arith

  -- A subtask that has completed, failed or been canceled is never written again: whatever rounds are
  -- created and whatever transitions are tried on any row, it keeps its status, its result and its
  -- error.
  pub settled_forever :
      (i : ℕ) (r : Subtask) (ops : List Op) (s : State) → Ended i r s → Ended i r (run ops s)
  unfolding run
  settled_forever i r [] s v = v
  settled_forever i r (op ∷ ops) s v = settled_forever i r ops (apply op s) (apply-Ended i r op s v)
