-- ===== src/Round/Chunk/Rows.antt =====
-- src/db/models/subtasks.ts: what a guarded transition does to the one row that bears its id.
use looping_core.Base.{
  ℕ, String, Bool, true, false, not, ◌&&◌, some, List, [], ◌∷◌, map, any, keep_if, ◌==◌, is_blank,
  returned, threw, if◌then◌else◌, ◌≡◌, refl, sym, ap, ◌∙◌, subst, Bool-cases, inl, inr, ◌⊎◌,
}
use looping_core.Db.Subtasks.Model.{
  first_of, get_subtask, is_live, is_running, is_pending, transition, start, complete, fail,
  failure, completion, beginning, no_text,
}
use looping_core.Db.Subtasks.Table.{Subtask, SubtaskTable}
use looping_core.Subtasks.Types.{SubtaskStatus}
use looping_core.Round.Chunk.Env.{IsOnly}

abbrev has_id : ℕ → Subtask → Bool
has_id id r = r.id == id

-- One row under a guarded change.
abbrev changed : ℕ → (SubtaskStatus → Bool) → (Subtask → Subtask) → Subtask → Subtask
changed id from change r = if r.id == id && from r.status then change r else r

-- A change that leaves a row its id.
abbrev KeepsId : (Subtask → Subtask) → Type 0
KeepsId change = (r : Subtask) → (change r).id ≡ r.id

-- Where a row was found after a change, it comes from the row that was found before.
pub record CameFrom (id : ℕ) (from : SubtaskStatus → Bool) (change : Subtask → Subtask)
    (rs : List Subtask) (q : Subtask) : Type 0 where
  pub origin : Subtask
  pub found : first_of (keep_if (has_id id) rs) ≡ some origin
  pub result : q ≡ (if from origin.status then change origin else origin)

came_from :
    (id : ℕ) (from : SubtaskStatus → Bool) (change : Subtask → Subtask) (rs : List Subtask)
    (q : Subtask)
    → KeepsId change
    → first_of (keep_if (has_id id) (map (changed id from change) rs)) ≡ some q
    → CameFrom id from change rs q
came_from id from change [] q keeps h = absurd (cc)
came_from id from change (r ∷ rs) q keeps h = elim (Bool-cases (r.id == id)) [
  | inr other ↦
      let rest : first_of (keep_if (has_id id) (map (changed id from change) rs)) ≡ some q =
        rw (other, other) at h in
      let before = came_from id from change rs q keeps rest in
      record { origin = before.origin; found = rw other before.found; result = before.result }
  | inl mine ↦ elim (Bool-cases (from r.status)) [
    | inl moves ↦
        let still : ((change r).id == id) ≡ true = ap (λ n. n == id) (keeps r) ∙ mine in
        let here : some (change r) ≡ some q = rw (mine, moves, still) at h in
        record { origin = r; found = rw mine refl; result = rw moves (cc) }
    | inr stays ↦
        let here : some r ≡ some q = rw (mine, stays, mine) at h in
        record { origin = r; found = rw mine refl; result = rw stays (cc) }
  ]
]

came_cases :
    (id : ℕ) (from : SubtaskStatus → Bool) (change : Subtask → Subtask) (rs : List Subtask)
    (q : Subtask) (c : CameFrom id from change rs q)
    → ((from c.origin.status ≡ true) × (q ≡ change c.origin))
      ⊎ ((from c.origin.status ≡ false) × (q ≡ c.origin))
came_cases id from change rs q c = elim (Bool-cases (from c.origin.status)) [
  | inl moves ↦ inl (moves, c.result ∙ rw moves refl)
  | inr stays ↦ inr (stays, c.result ∙ rw stays refl)
]

-- A change of no row has not moved the row that is found; a change of some row, the only one there is.
first_unmoved :
    (id : ℕ) (from : SubtaskStatus → Bool) (rs : List Subtask) (r : Subtask)
    → first_of (keep_if (has_id id) rs) ≡ some r
    → any (λ q. q.id == id && from q.status) rs ≡ false
    → from r.status ≡ false
first_unmoved id from [] r h unmoved = absurd (cc)
first_unmoved id from (x ∷ rs) r h unmoved = elim (Bool-cases (x.id == id)) [
  | inr other ↦ first_unmoved id from rs r (rw other at h) (rw other at unmoved)
  | inl mine ↦
      let here : some x ≡ some r = rw mine at h in
      let same : x ≡ r = cc in
      elim (Bool-cases (from x.status)) [
        | inl moves ↦
            let clash : any (λ q. q.id == id && from q.status) (x ∷ rs) ≡ true =
              rw (mine, moves) refl in
            absurd (cc)
        | inr stays ↦ ap (λ y. from y.status) (sym same) ∙ stays
      ]
]

none_changed :
    (id : ℕ) (from : SubtaskStatus → Bool) (rs : List Subtask)
    → any (has_id id) rs ≡ false
    → any (λ q. q.id == id && from q.status) rs ≡ false
none_changed id from [] h = refl
none_changed id from (x ∷ rs) h = elim (Bool-cases (x.id == id)) [
  | inl mine ↦ let clash : any (has_id id) (x ∷ rs) ≡ true = rw mine refl in absurd (cc)
  | inr other ↦ rw other (none_changed id from rs (rw other at h))
]

first_moved :
    (id : ℕ) (from : SubtaskStatus → Bool) (rs : List Subtask) (r : Subtask)
    → IsOnly id rs
    → first_of (keep_if (has_id id) rs) ≡ some r
    → any (λ q. q.id == id && from q.status) rs ≡ true
    → from r.status ≡ true
first_moved id from [] r only h moved = absurd (cc)
first_moved id from (x ∷ rs) r only h moved = elim (Bool-cases (x.id == id)) [
  | inr other ↦ first_moved id from rs r (rw other at only) (rw other at h) (rw other at moved)
  | inl mine ↦
      let here : some x ≡ some r = rw mine at h in
      let same : x ≡ r = cc in
      let alone : any (has_id id) rs ≡ false = rw mine at only in
      let unmoved = none_changed id from rs alone in
      elim (Bool-cases (from x.status)) [
        | inl moves ↦ ap (λ y. from y.status) (sym same) ∙ moves
        | inr stays ↦
            let clash : any (λ q. q.id == id && from q.status) (x ∷ rs) ≡ false =
              rw (mine, stays) unmoved in
            absurd (cc)
      ]
]

changed-id :
    (id : ℕ) (from : SubtaskStatus → Bool) (change : Subtask → Subtask) (r : Subtask)
    → KeepsId change
    → (changed id from change r).id ≡ r.id
changed-id id from change r keeps = elim (Bool-cases (r.id == id && from r.status)) [
  | inl moves ↦ rw moves (keeps r)
  | inr stays ↦ rw stays refl
]

any-changed :
    (id : ℕ) (from : SubtaskStatus → Bool) (change : Subtask → Subtask) (rs : List Subtask)
    → KeepsId change
    → any (has_id id) (map (changed id from change) rs) ≡ any (has_id id) rs
any-changed id from change [] keeps = refl
any-changed id from change (r ∷ rs) keeps =
    let first = ap (λ n. n == id) (changed-id id from change r keeps) in
    let others = any-changed id from change rs keeps in cc

IsOnly-map :
    (id : ℕ) (from : SubtaskStatus → Bool) (change : Subtask → Subtask) (rs : List Subtask)
    → KeepsId change
    → IsOnly id rs
    → IsOnly id (map (changed id from change) rs)
IsOnly-map id from change [] keeps only = tt
IsOnly-map id from change (r ∷ rs) keeps only =
    let first = ap (λ n. n == id) (changed-id id from change r keeps) in
    elim (Bool-cases (r.id == id)) [
      | inl mine ↦
          let still : ((changed id from change r).id == id) ≡ true = first ∙ mine in
          rw still (any-changed id from change rs keeps ∙ rw mine at only)
      | inr other ↦
          let still : ((changed id from change r).id == id) ≡ false = first ∙ other in
          rw still (IsOnly-map id from change rs keeps (rw other at only))
    ]

module _ (table : SubtaskTable)
    (selected : (p : Subtask → Bool) (s : table.State)
      → table.select p s ≡ keep_if p (table.rows s)) where
  open table use {State, rows}

  -- The row that is found after a guarded transition.
  transition_found :
      (now id : ℕ) (from : SubtaskStatus → Bool) (set : Subtask → Subtask) (s : State) (q : Subtask)
      → KeepsId set
      → get_subtask table id (transition table now id from set s).1 ≡ some q
      → CameFrom id from (λ r. record (set r) { updated_at = now }) (rows s) q
  unfolding get_subtask transition
  transition_found now id from set s q keeps h =
      came_from id from (λ r. record (set r) { updated_at = now }) (rows s) q keeps
        (sym (ap first_of (selected (has_id id) _ ∙ ap (keep_if (has_id id)) (table.updated _ _ s)))
          ∙ h)

  pub transition-IsOnly :
      (now id : ℕ) (from : SubtaskStatus → Bool) (set : Subtask → Subtask) (s : State)
      → KeepsId set
      → IsOnly id (rows s)
      → IsOnly id (rows (transition table now id from set s).1)
  unfolding transition
  transition-IsOnly now id from set s keeps only =
      subst (IsOnly id) (sym (table.updated _ _ s))
        (IsOnly-map id from (λ r. record (set r) { updated_at = now }) (rows s) keeps only)

  -- After `fail` the row has ended, whether or not it was live.
  pub fail_ends :
      (now id : ℕ) (error : String) (s : State) (q : Subtask)
      → get_subtask table id (fail table now id error s).1 ≡ some q
      → is_live q.status ≡ false
  unfolding fail is_live
  fail_ends now id error s q h =
      let before = transition_found now id is_live (failure now error) s q (λ r. refl) h in
      elim (came_cases id is_live _ (rows s) q before) [
        | inl (live, same) ↦ ap (λ y. is_live y.status) same
        | inr (dead, same) ↦ ap (λ y. is_live y.status) same ∙ dead
      ]

  -- After a `complete` that applied the row has ended.
  pub complete_ends :
      (now id : ℕ) (parts : List String) (s : State) (q : Subtask)
      → IsOnly id (rows s)
      → (complete table now id parts s).0 ≡ returned true
      → get_subtask table id (complete table now id parts s).1 ≡ some q
      → is_live q.status ≡ false
  unfolding complete transition is_live
  complete_ends now id parts s q only applied h =
      elim (Bool-cases (any (λ t. not (is_blank t)) parts)) [
        | inr blank ↦
            let fails : (complete table now id parts s).0 ≡ threw no_text = rw blank refl in
            absurd (cc)
        | inl text ↦
            let hit : any (λ r. r.id == id && is_running r.status) (rows s) ≡ true =
              cc (rw text at applied) in
            let before =
              transition_found now id is_running (completion now parts) s q (λ r. refl)
                (rw text at h) in
            let moved = first_moved id is_running (rows s) before.origin only before.found hit in
            elim (came_cases id is_running _ (rows s) q before) [
              | inl (running_then, same) ↦ ap (λ y. is_live y.status) same
              | inr (stays, same) ↦ absurd (cc)
            ]
      ]

  -- A row that `start` did not claim, and that is not running, has ended.
  pub start_ends :
      (now id : ℕ) (recipe_id : String) (version : ℕ) (s : State) (q : Subtask)
      → (start table now id recipe_id version s).0 ≡ false
      → get_subtask table id (start table now id recipe_id version s).1 ≡ some q
      → is_running q.status ≡ false
      → is_live q.status ≡ false
  unfolding start transition is_live
  start_ends now id recipe_id version s q unclaimed h stopped =
      let before =
        transition_found now id is_pending (beginning recipe_id version) s q (λ r. refl) h in
      let still = first_unmoved id is_pending (rows s) before.origin before.found unclaimed in
      elim (came_cases id is_pending _ (rows s) q before) [
        | inl (pending_then, same) ↦ absurd (cc)
        | inr (stays, same) ↦
            let waits : is_pending q.status ≡ false = ap (λ y. is_pending y.status) same ∙ stays in
            rw (stopped, waits) refl
      ]
