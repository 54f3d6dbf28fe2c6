-- ===== src/Contract.antt =====
-- src/contract/validation.ts and src/contract/recipe.ts: a recipe, and the boundary that it passes.
pub mod Limits
pub mod Recipe
pub mod Families
pub mod Normal
pub mod Examples
