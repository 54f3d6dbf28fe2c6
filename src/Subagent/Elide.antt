-- ===== src/Subagent/Elide.antt =====
-- src/subagent/run.ts, `elideToolOutputs`: the stubs leave every turn in its place.
use looping_core.Base.{ℕ, suc, String, Option, List, [], ◌∷◌, leb, ◌≡◌, refl, Bool-cases, inl, inr}
use looping_core.Subagent.Messages.{
  Message, system, user, assistant, tool, is_assistant, assistant_indices, elide_message,
  elide_from,
}

module _ {Json : Type 0} (json_size : Json → Option ℕ) where
  elide_message-role :
      (cutoff : ℕ) (newest : String → Option ℕ) (i : ℕ) (m : Message Json)
      → is_assistant (elide_message json_size cutoff newest i m) ≡ is_assistant m
  unfolding elide_message
  elide_message-role cutoff newest i (system t) = refl
  elide_message-role cutoff newest i (user t) = refl
  elide_message-role cutoff newest i (assistant c) = refl
  elide_message-role cutoff newest i (tool ps) = elim (Bool-cases (leb cutoff i)) [
    | inl recent ↦ rw recent refl
    | inr old ↦ rw old refl
  ]

  pub elide_from-indices :
      (cutoff : ℕ) (newest : String → Option ℕ) (i j : ℕ) (ms : List (Message Json))
      → assistant_indices j (elide_from json_size cutoff newest i ms) ≡ assistant_indices j ms
  unfolding elide_from assistant_indices
  elide_from-indices cutoff newest i j [] = refl
  elide_from-indices cutoff newest i j (m ∷ ms) =
      rw (elide_message-role cutoff newest i m, elide_from-indices cutoff newest (suc i) (suc j) ms)
        refl
