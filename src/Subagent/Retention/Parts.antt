-- ===== src/Subagent/Retention/Parts.antt =====
-- Of one part of a message: `elideToolOutputs` of src/subagent/run.ts against its rules.
use looping_core.Base.{
  ℕ, String, true, false, not, Option, none, some, List, [], ◌∷◌, map, any, str_eq_iff, ◌≡◌, refl,
  arith, Bool-cases, inl, inr, ◌⊎◌,
}
use looping_core.Subagent.Messages.{
  Message, ToolPart, ToolResult, tool_result, approval_response, ToolOutput, text, error_text, json,
  error_json, content, execution_denied, text_length, is_at, is_result_of, has_result_of, is_below,
  is_spared, elide_part, elided_tool_output,
}
use looping_core.Subagent.Retention.{
  IsFailure, IsBelow, IsSmall, IsKept, is_recent, is_newest, is_failure, is_small, PartOf, PartsOf,
}

module _ {Json : Type 0} (json_size : Json → Option ℕ) where
  is_below_iff :
      (size : Option ℕ)
      → (is_below size ≡ true → IsBelow size) × (IsBelow size → is_below size ≡ true)
  unfolding is_below
  is_below_iff none = (λ h. absurd (cc), λ h. absurd h)
  is_below_iff (some n) = (λ h. ground arith, λ h. ground arith)

  spared : (o : ToolOutput Json) → is_spared json_size o ≡ true → IsFailure o ⊎ IsSmall json_size o
  unfolding is_spared
  spared (text t) h = inr ((is_below_iff (some (text_length t))).0 h)
  spared (error_text t) h = inl tt
  spared (json v) h = inr ((is_below_iff (json_size v)).0 h)
  spared (error_json v) h = inl tt
  spared (content v) h = inr ((is_below_iff (json_size v)).0 h)
  spared (execution_denied reason) h = inl tt

  spared_if :
      (o : ToolOutput Json) → IsFailure o ⊎ IsSmall json_size o → is_spared json_size o ≡ true
  unfolding is_spared
  spared_if (text t) (inr h) = (is_below_iff (some (text_length t))).1 h
  spared_if (text t) (inl h) = absurd h
  spared_if (error_text t) h = refl
  spared_if (json v) (inr h) = (is_below_iff (json_size v)).1 h
  spared_if (json v) (inl h) = absurd h
  spared_if (error_json v) h = refl
  spared_if (content v) (inr h) = (is_below_iff (json_size v)).1 h
  spared_if (content v) (inl h) = absurd h
  spared_if (execution_denied reason) h = refl

  kept_part :
      (R : Type 0) (later : List (Message Json)) (p : ToolPart Json)
      → R
      → PartOf json_size R later p p
  kept_part R later (approval_response a) h = refl
  kept_part R later (tool_result r) h = inl (refl, is_recent h)

  pub kept_parts :
      (R : Type 0) (later : List (Message Json)) (ps : List (ToolPart Json))
      → R
      → PartsOf json_size R later ps ps
  kept_parts R later [] h = tt
  kept_parts R later (p ∷ ps) h = (kept_part R later p h, kept_parts R later ps h)

  unkept :
      (R : Type 0) (later : List (Message Json)) (r : ToolResult Json)
      → ¬ R
      → any (has_result_of r.tool_name) later ≡ true
      → is_spared json_size r.output ≡ false
      → ¬ IsKept json_size R later r
  unkept R later r old seen big (is_recent h) = old h
  unkept R later r old seen big (is_newest h) = absurd (cc)
  unkept R later r old seen big (is_failure h) = absurd (let s = spared_if r.output (inl h) in cc)
  unkept R later r old seen big (is_small h) = absurd (let s = spared_if r.output (inr h) in cc)

  -- The newest message with a result of a tool has no other behind it.
  abbrev pub Newest : (String → Option ℕ) → ℕ → Message Json → List (Message Json) → Type 0
  Newest newest i m later =
      (name : String)
      → has_result_of name m ≡ true
      → is_at (newest name) i ≡ not (any (has_result_of name) later)

  elided_result :
      (R : Type 0) (newest : String → Option ℕ) (i : ℕ) (later : List (Message Json))
      (r : ToolResult Json)
      → ¬ R
      → is_at (newest r.tool_name) i ≡ not (any (has_result_of r.tool_name) later)
      → PartOf json_size R later (tool_result r) (elide_part json_size newest i (tool_result r))
  unfolding elide_part elided_tool_output
  elided_result R newest i later r old at =
      elim (Bool-cases (any (has_result_of r.tool_name) later)) [
        | inr last ↦
            let here : is_at (newest r.tool_name) i ≡ true = rw last at at in
            rw (PartOf, elide_part, here) (inl (refl, is_newest last))
        | inl seen ↦
            let gone : is_at (newest r.tool_name) i ≡ false = rw seen at at in
            elim (Bool-cases (is_spared json_size r.output)) [
              | inl stays ↦
                  rw (PartOf, elide_part, gone, stays)
                    (inl (
                      refl,
                      elim (spared r.output stays) [ inl h ↦ is_failure h | inr h ↦ is_small h ],
                    ))
              | inr goes ↦
                  rw (PartOf, elide_part, gone, goes) (inr (refl, unkept R later r old seen goes))
            ]
      ]

  pub elided_parts :
      (R : Type 0) (newest : String → Option ℕ) (i : ℕ) (later : List (Message Json))
      (ps : List (ToolPart Json))
      → ¬ R
      → ((name : String)
          → any (is_result_of name) ps ≡ true
          → is_at (newest name) i ≡ not (any (has_result_of name) later))
      → PartsOf json_size R later ps (map (elide_part json_size newest i) ps)
  unfolding elide_part
  elided_parts R newest i later [] old at = tt
  elided_parts R newest i later (approval_response a ∷ ps) old at =
      (refl, elided_parts R newest i later ps old at)
  elided_parts R newest i later (tool_result r ∷ ps) old at = (
    elided_result R newest i later r old
        (at r.tool_name (rw ((str_eq_iff r.tool_name r.tool_name).1 refl) refl)),
    elided_parts R newest i later ps old (λ name h. at name (ground arith)),
  )
