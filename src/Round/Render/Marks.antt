-- ===== src/Round/Render/Marks.antt =====
-- The marks of src/round/turn.ts: what a model is shown as a citable message, and what its index means.
use looping_core.Base.{
  ℕ, zero, suc, ◌+◌, String, Bool, List, [], ◌∷◌, ◌++◌, length, get_elem?, get_elem?-append, some,
  ◌≡◌, refl, ap, subst, arith, ◌⊎◌, inl, inr, Bool-cases, Option-cases, str_eq,
}
use looping_core.Agent.History.{SessionMessage, session_text, parse_round_ack_message_id}
use looping_core.Subtasks.Types.{Speaker, CompositionBranch}
use looping_core.Round.Render.{
  ModelMessage, plain, ReferenceCatalogEntry, Rounds, View, ref_mark, speaker, ack_round,
  is_catalog_eligible, push, cite, loose_ack, place, visit, walk, render_turn_messages, by_round,
}

get_elem?-length {ℓ} :
    {A : Type ℓ} (xs : List A) (x : A) → get_elem? (xs ++ x ∷ []) (length xs) ≡ some x
get_elem?-length [] x = refl
get_elem?-length (y ∷ xs) x = get_elem?-length xs x

-- An element of a list with one more at its end is an old one, or that one.
get_elem?-cases {ℓ} :
    {A : Type ℓ} (xs : List A) (x y : A) (i : ℕ)
    → get_elem? (xs ++ x ∷ []) i ≡ some y
    → (get_elem? xs i ≡ some y) ⊎ ((i ≡ length xs) × (x ≡ y))
get_elem?-cases [] x y zero h = inr (refl, cc)
get_elem?-cases [] x y (suc i) h = absurd (cc)
get_elem?-cases (z ∷ xs) x y zero h = inl h
get_elem?-cases (z ∷ xs) x y (suc i) h = elim (get_elem?-cases xs x y i h) [
  | inl old ↦ inl old
  | inr (at, same) ↦ inr (ap suc at, same)
]

-- The entry stands at its index, counted from 1, and a message shows it under that mark.
pub record IsMarked {Input E : Type 0} (messages : List (ModelMessage Input E)) (i : ℕ)
    (e : ReferenceCatalogEntry) : Type 0 where
  pub numbered : e.index ≡ i + 1
  pub position : ℕ
  pub shown : get_elem? messages position ≡ some (plain e.role (ref_mark e.index e.text))

abbrev pub Marks :
    {Input E : Type 0} → List (ModelMessage Input E) → List ReferenceCatalogEntry → Type 0
Marks messages catalog =
    (i : ℕ) (e : ReferenceCatalogEntry) → get_elem? catalog i ≡ some e → IsMarked messages i e

module _ {Input E : Type 0} (is_compaction : SessionMessage → Bool) where
  abbrev pub Good : View Input E → Type 0
  Good v = Marks v.messages v.catalog

  append-Marks :
      (messages more : List (ModelMessage Input E)) (catalog : List ReferenceCatalogEntry)
      → Marks messages catalog
      → Marks (messages ++ more) catalog
  append-Marks messages more catalog g i e h =
      let old = g i e h in
      record {
        numbered = old.numbered;
        position = old.position;
        shown = get_elem?-append messages more old.position _ old.shown;
      }

  cite-Marks :
      (messages : List (ModelMessage Input E)) (catalog : List ReferenceCatalogEntry)
      (new : ReferenceCatalogEntry)
      → new.index ≡ length catalog + 1
      → Marks messages catalog
      → Marks (messages ++ plain new.role (ref_mark new.index new.text) ∷ []) (catalog ++ new ∷ [])
  cite-Marks messages catalog new n g i e h = elim (get_elem?-cases catalog new e i h) [
    | inl old ↦ append-Marks messages _ catalog g i e old
    | inr (at, same) ↦
        subst (λ x. IsMarked (messages ++ plain new.role (ref_mark new.index new.text) ∷ []) i x)
          same
          (record {
            numbered = omega arith;
            position = length messages;
            shown = get_elem?-length messages _;
          })
  ]

  place-Good :
      (task_id : String) (v : View Input E) (m : SessionMessage) (role : Speaker)
      → Good v
      → Good (place is_compaction task_id v m role)
  unfolding place push cite loose_ack
  place-Good task_id v m role g = elim (Option-cases (parse_round_ack_message_id m.id)) [
    | inl own ↦ elim (Bool-cases (is_catalog_eligible is_compaction m)) [
      | inl yes_m ↦
          rw (Good, place, own, yes_m)
            (cite-Marks v.messages v.catalog
              (record { index = length v.catalog + 1; role = role; text = session_text m }) refl g)
      | inr no_m ↦ rw (Good, place, own, no_m) (append-Marks v.messages _ v.catalog g)
    ]
    | inr ((owner, n), ack) ↦ elim (Bool-cases (str_eq owner task_id)) [
      | inl mine ↦ rw (Good, place, ack, loose_ack, mine) g
      | inr theirs ↦
          rw (Good, place, ack, loose_ack, theirs) (append-Marks v.messages _ v.catalog g)
    ]
  ]

  visit-Good :
      (task_id : String) (rounds : Rounds) (v : View Input E) (m : SessionMessage)
      → Good v
      → Good (visit is_compaction task_id rounds v m)
  unfolding visit push
  visit-Good task_id rounds v m g = elim (Option-cases (speaker m.role)) [
    | inl silent ↦ rw (Good, visit, silent) g
    | inr (role, says) ↦ elim (Option-cases (ack_round task_id rounds m.id)) [
      | inl other ↦ rw (Good, visit, says, other) (place-Good task_id v m role g)
      | inr ((r, bs), acks) ↦ rw (Good, visit, says, acks) (append-Marks v.messages _ v.catalog g)
    ]
  ]

  walk-Good :
      (task_id : String) (rounds : Rounds) (history : List SessionMessage) (v : View Input E)
      → Good v
      → Good (walk is_compaction task_id rounds v history)
  unfolding walk
  walk-Good task_id rounds [] v g = g
  walk-Good task_id rounds (m ∷ ms) v g =
      walk-Good task_id rounds ms (visit is_compaction task_id rounds v m)
        (visit-Good task_id rounds v m g)

  -- Every entry of a round's catalog stands at the place that its index names, and the model is shown
  -- exactly its role and text under that index.
  pub render_turn_messages-IsMarked :
      (history : List SessionMessage) (task_id : String) (branches : List CompositionBranch) (i : ℕ)
      (e : ReferenceCatalogEntry)
      → get_elem?
          (render_turn_messages {Input = Input} {E = E} is_compaction history task_id branches).1
          i
        ≡ some e
      → IsMarked
          (render_turn_messages {Input = Input} {E = E} is_compaction history task_id branches).0
          i
          e
  unfolding render_turn_messages
  render_turn_messages-IsMarked history task_id branches i e h =
      append-Marks _ _ _ (walk-Good task_id (by_round branches) history _ (λ j x g. absurd (cc))) i
        e h
