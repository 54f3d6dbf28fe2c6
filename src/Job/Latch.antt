-- ===== src/Job/Latch.antt =====
-- src/job/lifecycle.ts, `generation`: a drain that was superseded never owns the record again.
use looping_core.Base.{
  ℕ, Bool, true, false, Option, List, [], ◌∷◌, map, if◌then◌else◌, ◌≡◌, refl, ap, Bool-cases, inl,
  inr,
}
use looping_core.Job.Lifecycle.{Generation, generation, is_stamp, still_mine}

-- The answers to one check after another, each at the stamp that stands on disk then.
unfoldable pub ask_still_mine : Generation → List (Option ℕ) → List Bool
unfolding still_mine
ask_still_mine g [] = []
ask_still_mine g (context ∷ contexts) =
    let asked = still_mine g context in asked.0 ∷ ask_still_mine asked.1 contexts

-- Whether the record was owned by this run at every check so far.
unfoldable pub owned_so_far : ℕ → List (Option ℕ) → List Bool
owned_so_far t [] = []
owned_so_far t (context ∷ contexts) =
    let later = owned_so_far t contexts in
    if is_stamp context t then true ∷ later else false ∷ map (λ c. false) contexts

superseded_forever :
    (t : ℕ) (contexts : List (Option ℕ))
    → ask_still_mine (record { started_at = t; superseded = true }) contexts
      ≡ map (λ c. false) contexts
unfolding ask_still_mine still_mine
superseded_forever t [] = refl
superseded_forever t (context ∷ contexts) = ap (λ bs. false ∷ bs) (superseded_forever t contexts)

-- A drain is told at each check that the record is its own exactly where the stamp on disk has been its
-- own at this check and at every check before: a stamp that comes back does not give the record back.
pub ask_still_mine-owned :
    (t : ℕ) (contexts : List (Option ℕ))
    → ask_still_mine (generation t) contexts ≡ owned_so_far t contexts
unfolding ask_still_mine owned_so_far still_mine generation
ask_still_mine-owned t [] = refl
ask_still_mine-owned t (context ∷ contexts) = elim (Bool-cases (is_stamp context t)) [
  | inl mine ↦ rw mine (ap (λ bs. true ∷ bs) (ask_still_mine-owned t contexts))
  | inr lost ↦ rw lost (ap (λ bs. false ∷ bs) (superseded_forever t contexts))
]
