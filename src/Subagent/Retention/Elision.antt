-- ===== src/Subagent/Retention/Elision.antt =====
-- `elideToolOutputs` of src/subagent/run.ts keeps what its rules keep, and nothing else.
use looping_core.Base.{
  ℕ, suc, String, ◌≤◌, true, false, Option, none, some, List, [], ◌∷◌, map, any, leb, ◌==◌, ◌≡◌,
  refl, ap, ◌∙◌, arith, Bool-cases, Option-cases, inl, inr, subst,
}
use looping_core.Subagent.Messages.{
  Message, system, user, assistant, tool, WindowWidth, or_here, has_result_of, newest_per_tool,
  keep_width, detail_cutoff, elide_part, elide_message, elide_from, elide_tool_outputs,
}
use looping_core.Subagent.Retention.{turns, IsRecent, MessageOf, Retains}
use looping_core.Subagent.Retention.Parts.{kept_parts, Newest, elided_parts}
use looping_core.Subagent.Retention.Cuts.{CutsAt, Cuts, Cuts-detail}

module _ {Json : Type 0} (json_size : Json → Option ℕ) where
  elided_message :
      (R : Type 0) (cutoff : ℕ) (newest : String → Option ℕ) (i : ℕ) (m : Message Json)
      (later : List (Message Json))
      → CutsAt cutoff i m R
      → Newest json_size newest i m later
      → MessageOf json_size R later m (elide_message json_size cutoff newest i m)
  unfolding elide_message
  elided_message R cutoff newest i (system t) later c n = refl
  elided_message R cutoff newest i (user t) later c n = refl
  elided_message R cutoff newest i (assistant t) later c n = refl
  elided_message R cutoff newest i (tool ps) later c n = elim (Bool-cases (leb cutoff i)) [
    | inl late ↦ rw late (ps, refl, kept_parts json_size R later ps (rw (CutsAt, late) at c))
    | inr early ↦ rw early (
      map (elide_part json_size newest i) ps,
      refl,
      elided_parts json_size R newest i later ps (rw (CutsAt, early) at c) n,
    )
  ]

  newest-none :
      (name : String) (i : ℕ) (ms : List (Message Json))
      → newest_per_tool i ms name ≡ none
      → any (has_result_of name) ms ≡ false
  unfolding newest_per_tool
  newest-none name i [] h = refl
  newest-none name i (m ∷ ms) h = elim (Option-cases (newest_per_tool (suc i) ms name)) [
    | inl nothing ↦
        let later = newest-none name (suc i) ms nothing in
        elim (Bool-cases (has_result_of name m)) [
          | inl here ↦ absurd (let h' = rw (nothing, here) at h in cc)
          | inr elsewhere ↦ rw (elsewhere, later) refl
        ]
    | inr (j, found) ↦ absurd (let h' = rw found at h in cc)
  ]

  newest-some :
      (name : String) (i j : ℕ) (ms : List (Message Json))
      → newest_per_tool i ms name ≡ some j
      → (i ≤ j) × (any (has_result_of name) ms ≡ true)
  unfolding newest_per_tool
  newest-some name i j [] h = absurd (cc)
  newest-some name i j (m ∷ ms) h = elim (Option-cases (newest_per_tool (suc i) ms name)) [
    | inl nothing ↦ elim (Bool-cases (has_result_of name m)) [
      | inl here ↦
          let same : i ≡ j = let h' = rw (nothing, here) at h in cc in (omega arith, rw here refl)
      | inr elsewhere ↦ absurd (let h' = rw (nothing, elsewhere) at h in cc)
    ]
    | inr (k, found) ↦
        let same : k ≡ j = let h' = rw found at h in cc in
        let (after, seen) = newest-some name (suc i) k ms found in
        (omega arith, rw seen (ground arith))
  ]

  elided_from :
      (cutoff : ℕ) (width : Option ℕ) (total : ℕ) (newest : String → Option ℕ) (i : ℕ)
      (ms : List (Message Json))
      → Cuts cutoff width total i ms
      → ((name : String) (j : ℕ) → newest_per_tool i ms name ≡ some j → newest name ≡ some j)
      → Retains json_size width total ms (elide_from json_size cutoff newest i ms)
  unfolding elide_from newest_per_tool
  elided_from cutoff width total newest i [] c n = tt
  elided_from cutoff width total newest i (m ∷ ms) c n = (
    elided_message (IsRecent width total ms) cutoff newest i m ms c.0 (place newest i m ms n),
    elided_from cutoff width total newest (suc i) ms c.1
        (λ name j h. n name j (rw (newest_per_tool, h, or_here) refl)),
  )
    where
      place :
          (newest : String → Option ℕ) (i : ℕ) (m : Message Json) (ms : List (Message Json))
          → ((name : String) (j : ℕ)
              → newest_per_tool i (m ∷ ms) name ≡ some j
              → newest name ≡ some j)
          → Newest json_size newest i m ms
      place newest i m ms n name here = elim (Option-cases (newest_per_tool (suc i) ms name)) [
        | inl nothing ↦
            rw
              (
                newest-none name (suc i) ms nothing,
                n name i (rw (newest_per_tool, nothing, or_here, here) refl),
              )
              (ground arith)
        | inr (j, found) ↦
            let (after, seen) = newest-some name (suc i) j ms found in
            rw (seen, n name j (rw (newest_per_tool, found, or_here) refl)) (ground arith)
      ]

  elide_from-all :
      (newest : String → Option ℕ) (i : ℕ) (ms : List (Message Json))
      → elide_from json_size 0 newest i ms ≡ ms
  unfolding elide_from elide_message
  elide_from-all newest i [] = refl
  elide_from-all newest i (system t ∷ ms) =
      ap (λ xs. system t ∷ xs) (elide_from-all newest (suc i) ms)
  elide_from-all newest i (user t ∷ ms) = ap (λ xs. user t ∷ xs) (elide_from-all newest (suc i) ms)
  elide_from-all newest i (assistant t ∷ ms) =
      ap (λ xs. assistant t ∷ xs) (elide_from-all newest (suc i) ms)
  elide_from-all newest i (tool ps ∷ ms) =
      let first : leb 0 i ≡ true = ground arith in
      let others = elide_from-all newest (suc i) ms in rw (first, others) refl

  -- Trimming the tool outputs keeps every message and every part in its place, and changes results
  -- only. A result keeps its output if it is within the last turns of the width (all are where there are
  -- no more turns than that), or no later message has a result of its tool, or it reports a failure or a
  -- denial, or its size is below 200. If none of these holds, its output, and nothing else of it, is
  -- replaced by the stub.
  pub elide_tool_outputs-Retains :
      (ms : List (Message Json)) (width : WindowWidth)
      → Retains json_size (keep_width width) (turns ms) ms (elide_tool_outputs json_size ms width)
  unfolding elide_tool_outputs
  elide_tool_outputs-Retains ms width =
      let cutoff = detail_cutoff ms (keep_width width) in
      let newest = newest_per_tool 0 ms in
      let all =
        elided_from cutoff (keep_width width) (turns ms) newest 0 ms
          (Cuts-detail ms (keep_width width)) (λ name j h. h) in
      elim (Bool-cases (cutoff == 0)) [
        | inl none_old ↦
            let start : cutoff ≡ 0 = ground arith in
            rw none_old (
              subst (Retains json_size (keep_width width) (turns ms) ms)
                (ap (λ c. elide_from json_size c newest 0 ms) start ∙ elide_from-all newest 0 ms)
                all)
        | inr some_old ↦ rw some_old all
      ]
