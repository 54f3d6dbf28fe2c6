-- ===== src/Contract/Normal.antt =====
-- A validated recipe is a fixed point of validation: the child's second look changes nothing.
use looping_core.Base.{
  ℕ, zero, suc, false, is_blank, returned, threw, ◌≡◌, refl, sym, ap, ◌∙◌, subst, Bool-cases, inl,
  inr, List, String,
}
use looping_core.Contract.Limits.{LimitValue, absent, whole, unusable, positive_int, resolve_limits}
use looping_core.Contract.Recipe.{
  ResolvedRecipe, ValidatedRecipe, RecipePolicy, disabled, no_soul, stamp, validate_window,
  validate_recipe, as_resolved,
}
use looping_core.Contract.Families.{known_families_twice}

positive_int_twice :
    (v : LimitValue) (n : ℕ) → positive_int (whole (positive_int v n)) n ≡ positive_int v n
unfolding positive_int
positive_int_twice absent zero = refl
positive_int_twice absent (suc n) = refl
positive_int_twice (whole zero) zero = refl
positive_int_twice (whole zero) (suc n) = refl
positive_int_twice (whole (suc m)) n = refl
positive_int_twice unusable zero = refl
positive_int_twice unusable (suc n) = refl

restamp : ValidatedRecipe → List String → ℕ → ℕ → ValidatedRecipe
restamp v families turns wall = record {
  key = v.key;
  version = v.version;
  soul = v.soul;
  tool_families = families;
  limits = record { max_turns = turns; max_wall_ms = wall };
  history_window = v.history_window;
  report_metrics = v.report_metrics;
  primary_model_id = v.primary_model_id;
  fallback_model_id = v.fallback_model_id;
}

stamp_twice :
    (policy : RecipePolicy) (r : ResolvedRecipe) (n : ℕ)
    → stamp policy (as_resolved (stamp policy r n)) n ≡ stamp policy r n
unfolding stamp as_resolved resolve_limits restamp
stamp_twice policy r n =
    let v = stamp policy r n in
    let b = policy.baseline_limits in
    let turns = positive_int_twice r.limits.max_turns b.max_turns in
    let wall = positive_int_twice r.limits.max_wall_ms b.max_wall_ms in
    ap
      (λ fs.
        restamp v fs (positive_int (whole v.limits.max_turns) b.max_turns)
          (positive_int (whole v.limits.max_wall_ms) b.max_wall_ms))
      (known_families_twice policy r.tool_families)
    ∙ ap
        (λ t. restamp v v.tool_families t (positive_int (whole v.limits.max_wall_ms) b.max_wall_ms))
        turns
    ∙ ap (restamp v v.tool_families v.limits.max_turns) wall

validate_window_twice :
    (policy : RecipePolicy) (r : ResolvedRecipe) (w : LimitValue) (v : ValidatedRecipe)
    → validate_window policy r w ≡ returned v
    → validate_window policy (as_resolved v) (whole v.history_window) ≡ returned v
unfolding validate_window as_resolved stamp
validate_window_twice policy r absent v h = absurd (cc)
validate_window_twice policy r (whole zero) v h = absurd (cc)
validate_window_twice policy r (whole (suc n)) v h =
    let is_v : stamp policy r (suc n) ≡ v = cc in
    subst (λ u. validate_window policy (as_resolved u) (whole u.history_window) ≡ returned u) is_v
      (ap returned (stamp_twice policy r (suc n)))
validate_window_twice policy r unusable v h = absurd (cc)

validate_window-soul :
    (policy : RecipePolicy) (r : ResolvedRecipe) (w : LimitValue) (v : ValidatedRecipe)
    → validate_window policy r w ≡ returned v
    → r.soul ≡ v.soul
unfolding validate_window stamp
validate_window-soul policy r absent v h = absurd (cc)
validate_window-soul policy r (whole zero) v h = absurd (cc)
validate_window-soul policy r (whole (suc n)) v h =
    let is_v : stamp policy r (suc n) ≡ v = cc in ap (λ u. u.soul) is_v
validate_window-soul policy r unusable v h = absurd (cc)

-- What validation accepts it accepts again, unchanged: the copy that the parent validated and sends is
-- validated by the subagent, under the same policy, to the very same recipe.
pub validate_recipe_twice :
    (r : ResolvedRecipe) (policy : RecipePolicy) (v : ValidatedRecipe)
    → validate_recipe r policy ≡ returned v
    → validate_recipe (as_resolved v) policy ≡ returned v
unfolding validate_recipe as_resolved
validate_recipe_twice r policy v h = elim (Bool-cases r.enabled) [
  | inl on ↦ elim (Bool-cases (is_blank r.soul)) [
    | inl blank ↦
        let fails : validate_recipe r policy ≡ threw no_soul =
          rw (validate_recipe, on, blank) refl in
        absurd (cc)
    | inr full ↦
        let at_window : validate_window policy r r.history_window ≡ returned v =
          rw (validate_recipe, on, full) at h in
        let soul : is_blank v.soul ≡ false =
          ap is_blank (sym (validate_window-soul policy r r.history_window v at_window)) ∙ full in
        rw (validate_recipe, soul) (validate_window_twice policy r r.history_window v at_window)
  ]
  | inr off ↦
      let fails : validate_recipe r policy ≡ threw disabled = rw (validate_recipe, off) refl in
      absurd (cc)
]
