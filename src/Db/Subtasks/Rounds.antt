-- ===== src/Db/Subtasks/Rounds.antt =====
-- The rounds of src/db/models/subtasks.ts: how many rows a round gets, their ordinals, and replays.
use looping_core.Base.{
  ℕ, zero, suc, ◌+◌, ◌≤◌, ◌<◌, String, Bool, true, false, ◌&&◌, ◌||◌, List, [], ◌∷◌, ◌++◌, any,
  length, length-append, ltb, ◌==◌, str_eq, str_eq_iff, if◌then◌else◌, returned, threw, get_elem?,
  some, ◌≡◌, ◌≢◌, refl, sym, ap, ◌∙◌, arith, inl, inr, ◌⊎◌, Bool-cases,
}
use looping_core.Subtasks.Types.{SubtaskDraft}
use looping_core.Db.Subtasks.Table.{Subtask, SubtaskTable}
use looping_core.Db.Subtasks.Model.{
  bad_count, ordinals_end, in_round, list_round, draft_row, insert_drafts, create_new, create_over,
  create_decomposition,
}

-- An ordinal that is given out next is above those of the Task's rows.
pub ordinals_end-above :
    (task_id : String) (rows : List Subtask) (i : ℕ) (r : Subtask)
    → get_elem? rows i ≡ some r
    → str_eq r.task_id task_id ≡ true
    → r.ordinal < ordinals_end task_id rows
unfolding ordinals_end
ordinals_end-above task_id [] i r h e = absurd (cc)
ordinals_end-above task_id (x ∷ rows) zero r h e =
    let same : x ≡ r = cc in
    let own : str_eq x.task_id task_id ≡ true = ap (λ y. str_eq y.task_id task_id) same ∙ e in
    let at : x.ordinal ≡ r.ordinal = ap (λ y. y.ordinal) same in
    rw (ordinals_end, own) (omega arith)
ordinals_end-above task_id (x ∷ rows) (suc i) r h e =
    let rest = ordinals_end-above task_id rows i r h e in
    elim (Bool-cases (str_eq x.task_id task_id)) [
      | inl own ↦ rw (ordinals_end, own) (omega arith)
      | inr other ↦ rw (ordinals_end, other) rest
    ]

any-append {ℓ} :
    {A : Type ℓ} (p : A → Bool) (xs ys : List A) → any p (xs ++ ys) ≡ any p xs || any p ys
any-append p [] ys = refl
any-append p (x ∷ xs) ys = let rest = any-append p xs ys in ground arith

module _ (table : SubtaskTable) where
  open table use {State, rows, select, insert}

  insert_drafts-length :
      (now : ℕ) (task_id : String) (round ordinal : ℕ) (ds : List SubtaskDraft) (s : State)
      → length (rows (insert_drafts table now task_id round ordinal ds s))
        ≡ length (rows s) + length ds
  unfolding insert_drafts
  insert_drafts-length now task_id round ordinal [] s = omega arith
  insert_drafts-length now task_id round ordinal (d ∷ ds) s =
      let row : Subtask = draft_row now task_id round ordinal (table.fresh_id s) d in
      omega (
        arith,
        insert_drafts-length now task_id round (suc ordinal) ds (insert row s),
        ap length (table.inserted row s),
        length-append (rows s) (row ∷ []),
      )

  -- A round that has no rows yet is created with one row for each draft; with fewer than one draft or
  -- more than the limit nothing is written.
  pub create_decomposition-length :
      (limit now : ℕ) (task_id : String) (round : ℕ) (ds : List SubtaskDraft) (s : State)
      → list_round table task_id round s ≡ []
      → let made = create_decomposition table limit now task_id round ds s in
        length (rows made.1) ≡ (
          if ltb (length ds) 1 || ltb limit (length ds)
          then length (rows s)
          else length (rows s) + length ds)
  unfolding create_decomposition create_over create_new
  create_decomposition-length limit now task_id round ds s h =
      ap (λ o. length (rows (create_over table limit now task_id round ds s o).1)) h
      ∙ created (Bool-cases (ltb (length ds) 1 || ltb limit (length ds)))
    where
      created :
          (ltb (length ds) 1 || ltb limit (length ds) ≡ true)
            ⊎ (ltb (length ds) 1 || ltb limit (length ds) ≡ false)
          → length (rows (create_new table limit now task_id round ds s).1) ≡ (
              if ltb (length ds) 1 || ltb limit (length ds)
              then length (rows s)
              else length (rows s) + length ds)
      created (inl bad) = rw (create_new, bad)
      created (inr good) =
          rw (create_new, good)
            (insert_drafts-length now task_id round (ordinals_end task_id (rows s)) ds s)

  -- A row that matches is still there after an insert, and one that matches is there.
  kept :
      (p : Subtask → Bool) (s : State) (row : Subtask)
      → any p (rows s) ≡ true
      → any p (rows (insert row s)) ≡ true
  kept p s row h =
      let split : any p (rows (insert row s)) ≡ any p (rows s) || any p (row ∷ []) =
        ap (any p) (table.inserted row s) ∙ any-append p (rows s) (row ∷ []) in
      ground arith

  added :
      (p : Subtask → Bool) (s : State) (row : Subtask)
      → p row ≡ true
      → any p (rows (insert row s)) ≡ true
  added p s row h =
      let split : any p (rows (insert row s)) ≡ any p (rows s) || any p (row ∷ []) =
        ap (any p) (table.inserted row s) ∙ any-append p (rows s) (row ∷ []) in
      ground arith

  insert_drafts-any :
      (p : Subtask → Bool) (now : ℕ) (task_id : String) (round ordinal : ℕ) (ds : List SubtaskDraft)
      (s : State)
      → any p (rows s) ≡ true
      → any p (rows (insert_drafts table now task_id round ordinal ds s)) ≡ true
  unfolding insert_drafts
  insert_drafts-any p now task_id round ordinal [] s h = h
  insert_drafts-any p now task_id round ordinal (d ∷ ds) s h =
      insert_drafts-any p now task_id round (suc ordinal) ds _
        (kept p s (draft_row now task_id round ordinal (table.fresh_id s) d) h)

  insert_drafts-in_round :
      (now : ℕ) (task_id : String) (round ordinal : ℕ) (ds : List SubtaskDraft) (s : State)
      → 1 ≤ length ds
      → any (in_round task_id round) (rows (insert_drafts table now task_id round ordinal ds s))
        ≡ true
  unfolding insert_drafts draft_row in_round
  insert_drafts-in_round now task_id round ordinal [] s h = absurd (omega arith)
  insert_drafts-in_round now task_id round ordinal (d ∷ ds) s h =
      insert_drafts-any (in_round task_id round) now task_id round (suc ordinal) ds _ (
        added (in_round task_id round) s (draft_row now task_id round ordinal (table.fresh_id s) d)
          own)
    where
      own : str_eq task_id task_id && round == round ≡ true
      own =
          let text : str_eq task_id task_id ≡ true = (str_eq_iff task_id task_id).1 refl in
          ground arith

  -- What a round's creation returns is what the round holds afterwards, and is not empty.
  pub record Holds (task_id : String) (round : ℕ) (made : List Subtask) (s : State) : Type 0 where
    pub listed : list_round table task_id round s ≡ made
    pub filled : made ≢ []

  create_new-Holds :
      (limit now : ℕ) (task_id : String) (round : ℕ) (ds : List SubtaskDraft) (s s' : State)
      (made : List Subtask)
      → create_new table limit now task_id round ds s ≡ (returned made, s')
      → Holds task_id round made s'
  unfolding create_new list_round
  create_new-Holds limit now task_id round ds s s' made h =
      elim (Bool-cases (ltb (length ds) 1 || ltb limit (length ds))) [
        | inl bad ↦
            let refused : (threw (bad_count (length ds)), s) ≡ (returned made, s') =
              rw (create_new, bad) at h in
            absurd (cc)
        | inr good ↦
            let all : State =
              insert_drafts table now task_id round (ordinals_end task_id (rows s)) ds s in
            let done : (returned (list_round table task_id round all), all) ≡ (returned made, s') =
              rw (create_new, good) at h in
            let here : all ≡ s' = cc in
            let these : list_round table task_id round all ≡ made = cc in
            let some_there =
              insert_drafts-in_round now task_id round (ordinals_end task_id (rows s)) ds s
                (ground arith) in
            record {
              listed = ap (list_round table task_id round) (sym here) ∙ these;
              filled = λ e.
                  cc
                    (sym some_there ∙ table.selected_none (in_round task_id round) all (these ∙ e));
            }
      ]

  create_over-Holds :
      (limit now : ℕ) (task_id : String) (round : ℕ) (ds : List SubtaskDraft) (s s' : State)
      (found made : List Subtask)
      → list_round table task_id round s ≡ found
      → create_over table limit now task_id round ds s found ≡ (returned made, s')
      → Holds task_id round made s'
  unfolding create_over
  create_over-Holds limit now task_id round ds s s' [] made l h =
      create_new-Holds limit now task_id round ds s s' made h
  create_over-Holds limit now task_id round ds s s' (x ∷ xs) made l h =
      let here : s ≡ s' = cc in
      let these : x ∷ xs ≡ made = cc in
      record {
        listed = ap (list_round table task_id round) (sym here) ∙ l ∙ these;
        filled = λ e. cc (these ∙ e);
      }

  create_over-found :
      (limit now : ℕ) (task_id : String) (round : ℕ) (ds : List SubtaskDraft) (s : State)
      (found : List Subtask)
      → found ≢ []
      → create_over table limit now task_id round ds s found ≡ (returned found, s)
  unfolding create_over
  create_over-found limit now task_id round ds s [] h = absurd (h refl)
  create_over-found limit now task_id round ds s (x ∷ xs) h = refl

  -- A step that runs again after a round was created gets the rows of the first run, whatever drafts
  -- it brings, and writes nothing.
  pub create_decomposition_replay :
      (limit now later : ℕ) (task_id : String) (round : ℕ) (ds ds' : List SubtaskDraft)
      (s s' : State) (made : List Subtask)
      → create_decomposition table limit now task_id round ds s ≡ (returned made, s')
      → create_decomposition table limit later task_id round ds' s' ≡ (returned made, s')
  unfolding create_decomposition
  create_decomposition_replay limit now later task_id round ds ds' s s' made h =
      let held =
        create_over-Holds limit now task_id round ds s s' (list_round table task_id round s) made
          refl h in
      ap (create_over table limit later task_id round ds' s') held.listed
      ∙ create_over-found limit later task_id round ds' s' made held.filled
