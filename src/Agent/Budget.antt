-- ===== src/Agent/Budget.antt =====
-- src/agent/budget.ts: one round's turn allowance.
use looping_core.Base.{ℕ, ◌-◌, ◌≤◌, max, arith}

-- `spent` is mutated in place by the model loop, so it is threaded through a round.
pub record TurnBudget : Type 0 where
  pub allowance : ℕ
  pub spent : ℕ

unfoldable pub new_turn_budget : ℕ → TurnBudget
new_turn_budget allowance = record { allowance = allowance; spent = 0 }

-- `Math.max(1, maxTurns - spent)`: where the difference is negative the floor of one applies, as it
-- does where `-` stops at zero.
unfoldable pub step_allowance : ℕ → ℕ → ℕ
step_allowance max_turns spent = max 1 (max_turns - spent)

pub step_allowance-pos : (a s : ℕ) → 1 ≤ step_allowance a s
unfolding step_allowance
step_allowance-pos a s = omega arith
