-- ===== src/Contract/Recipe.antt =====
-- src/contract/validation.ts, `validateRecipe`, over the recipes of src/contract/recipe.ts.
use looping_core.Base.{
  ℕ, zero, suc, String, Bool, true, not, List, [], ◌∷◌, any, keep_if, str_eq, is_blank, Outcome,
  returned, threw, if◌then◌else◌,
}
use looping_core.Contract.Limits.{
  LimitValue, absent, whole, unusable, DeclaredLimits, AgentLimits, resolve_limits,
}

pub record ResolvedRecipe : Type 0 where
  pub key : String
  pub version : ℕ
  pub soul : String
  pub tool_families : List String
  pub enabled : Bool
  pub limits : DeclaredLimits
  pub history_window : LimitValue
  pub report_metrics : Bool

-- The copy that a subagent runs: its window is a whole number, its budget complete.
pub record ValidatedRecipe : Type 0 where
  pub key : String
  pub version : ℕ
  pub soul : String
  pub tool_families : List String
  pub limits : AgentLimits
  pub history_window : ℕ
  pub report_metrics : Bool
  pub primary_model_id : String
  pub fallback_model_id : String

-- `knownToolFamilies` enters as a test.
pub record RecipePolicy : Type 0 where
  pub primary_model_id : String
  pub fallback_model_id : String
  pub is_known : String → Bool
  pub baseline_limits : AgentLimits

pub data RecipeFault : Type 0 where
  disabled no_soul no_window : RecipeFault

-- `[...new Set(xs)]`, with the elements that were seen.
unfoldable pub unique_from : List String → List String → List String
unique_from seen [] = []
unique_from seen (x ∷ xs) =
    let known = unique_from seen xs in
    let fresh = unique_from (x ∷ seen) xs in if any (str_eq x) seen then known else x ∷ fresh

unfoldable pub known_families : RecipePolicy → List String → List String
unfolding unique_from
known_families policy xs = keep_if policy.is_known (unique_from [] xs)

unfoldable pub stamp : RecipePolicy → ResolvedRecipe → ℕ → ValidatedRecipe
unfolding known_families resolve_limits
stamp policy r window = record {
  key = r.key;
  version = r.version;
  soul = r.soul;
  tool_families = known_families policy r.tool_families;
  limits = resolve_limits r.limits policy.baseline_limits;
  history_window = window;
  report_metrics = r.report_metrics;
  primary_model_id = policy.primary_model_id;
  fallback_model_id = policy.fallback_model_id;
}

unfoldable pub validate_window :
    RecipePolicy → ResolvedRecipe → LimitValue → Outcome RecipeFault ValidatedRecipe
unfolding stamp
validate_window policy r absent = threw no_window
validate_window policy r (whole zero) = threw no_window
validate_window policy r (whole (suc n)) = returned (stamp policy r (suc n))
validate_window policy r unusable = threw no_window

-- The texts of the three faults are left out.
unfoldable pub validate_recipe : ResolvedRecipe → RecipePolicy → Outcome RecipeFault ValidatedRecipe
unfolding validate_window
validate_recipe r policy =
    if not r.enabled
    then threw disabled
    else if is_blank r.soul
    then threw no_soul
    else validate_window policy r r.history_window

-- A validated recipe is a resolved one too (`ValidatedRecipe extends ResolvedRecipe`): it is what the
-- parent sends and the child validates again.
unfoldable pub as_resolved : ValidatedRecipe → ResolvedRecipe
as_resolved v = record {
  key = v.key;
  version = v.version;
  soul = v.soul;
  tool_families = v.tool_families;
  enabled = true;
  limits = record {
    max_turns = whole v.limits.max_turns;
    max_wall_ms = whole v.limits.max_wall_ms;
  };
  history_window = whole v.history_window;
  report_metrics = v.report_metrics;
}
