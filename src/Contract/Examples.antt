-- ===== src/Contract/Examples.antt =====
-- Recipes of src/contract/validation.ts at work, and the theorems about them on these.
use looping_core.Base.{Bool, true, false, List, [], ◌∷◌, str_eq, returned, ◌≡◌, refl, ◌↔◌}
use looping_core.Contract.Limits.{
  absent, whole, unusable, DeclaredLimits, AgentLimits, canonical_limits, resolve_limits,
  canonical_limits_iff,
}
use looping_core.Contract.Recipe.{
  ResolvedRecipe, ValidatedRecipe, RecipePolicy, stamp, validate_recipe, as_resolved,
}
use looping_core.Contract.Normal.{validate_recipe_twice}

abbrev pub declared : DeclaredLimits
declared = record { max_turns = whole 6; max_wall_ms = unusable }

abbrev declared_alike : DeclaredLimits
declared_alike = record { max_turns = whole 6; max_wall_ms = absent }

abbrev pub chess : ResolvedRecipe
chess = record {
  key = "chess";
  version = 2;
  soul = "You play chess.";
  tool_families = "board" ∷ "files" ∷ "board" ∷ [];
  enabled = true;
  limits = declared;
  history_window = whole 8;
  report_metrics = true;
}

abbrev pub policy : RecipePolicy
policy = record {
  primary_model_id = "large";
  fallback_model_id = "small";
  is_known = str_eq "board";
  baseline_limits = record { max_turns = 10; max_wall_ms = 60000 };
}

abbrev pub valid_chess : ValidatedRecipe
valid_chess = stamp policy chess 8

families_kept : valid_chess.tool_families ≡ "board" ∷ []
unfolding stamp
families_kept = refl

pub chess_accepted : validate_recipe chess policy ≡ returned valid_chess
unfolding validate_recipe looping_core.Base.is_blank
chess_accepted = refl

validate_recipe_twice_example :
    validate_recipe (as_resolved valid_chess) policy ≡ returned valid_chess
validate_recipe_twice_example = validate_recipe_twice chess policy valid_chess chess_accepted

canonical_limits_iff_example :
    (canonical_limits declared ≡ canonical_limits declared_alike)
    ↔ ((b : AgentLimits) → resolve_limits declared b ≡ resolve_limits declared_alike b)
canonical_limits_iff_example = canonical_limits_iff declared declared_alike
