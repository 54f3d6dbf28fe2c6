-- ===== src/Contract/Limits.antt =====
-- src/contract/validation.ts, `resolveLimits`: a declared budget merged over the host's, per field; and
-- `canonicalLimits` of src/subagent/fingerprint.ts, which names a declared budget in a request's key.
use looping_core.Base.{ℕ, zero, suc, Option, none, some, ◌≡◌, ◌↔◌, refl, sym, ap, ◌∙◌, arith}

-- A number that a recipe states: missing, a whole number, or any other (negative, fractional, `NaN`).
pub data LimitValue : Type 0 where
  absent : LimitValue
  whole : ℕ → LimitValue
  unusable : LimitValue

-- `Partial<AgentLimits>`.
pub record DeclaredLimits : Type 0 where
  pub max_turns : LimitValue
  pub max_wall_ms : LimitValue

pub record AgentLimits : Type 0 where
  pub max_turns : ℕ
  pub max_wall_ms : ℕ

unfoldable pub positive_int : LimitValue → ℕ → ℕ
positive_int absent fallback = fallback
positive_int (whole zero) fallback = fallback
positive_int (whole (suc n)) fallback = suc n
positive_int unusable fallback = fallback

unfoldable pub resolve_limits : DeclaredLimits → AgentLimits → AgentLimits
unfolding positive_int
resolve_limits limits baseline = record {
  max_turns = positive_int limits.max_turns baseline.max_turns;
  max_wall_ms = positive_int limits.max_wall_ms baseline.max_wall_ms;
}

-- `keep`: what a field adds to the key, or nothing.
unfoldable pub keep_limit : LimitValue → Option ℕ
keep_limit absent = none
keep_limit (whole zero) = none
keep_limit (whole (suc n)) = some (suc n)
keep_limit unusable = none

pub record CanonicalLimits : Type 0 where
  pub turns : Option ℕ
  pub wall_ms : Option ℕ

unfoldable pub canonical_limits : DeclaredLimits → CanonicalLimits
unfolding keep_limit
canonical_limits limits = record {
  turns = keep_limit limits.max_turns;
  wall_ms = keep_limit limits.max_wall_ms;
}

-- The value of a kept field, or the fallback.
over : Option ℕ → ℕ → ℕ
over none fallback = fallback
over (some n) fallback = n

positive_int-keep : (v : LimitValue) (n : ℕ) → positive_int v n ≡ over (keep_limit v) n
unfolding positive_int keep_limit over
positive_int-keep absent n = refl
positive_int-keep (whole zero) n = refl
positive_int-keep (whole (suc m)) n = refl
positive_int-keep unusable n = refl

-- Two fallbacks tell apart what is kept from what is not.
over_lem : (a b : Option ℕ) → over a 0 ≡ over b 0 → over a 1 ≡ over b 1 → a ≡ b
unfolding over
over_lem none none h k = refl
over_lem none (some n) h k = absurd (omega arith)
over_lem (some m) none h k = absurd (omega arith)
over_lem (some m) (some n) h k = ap some h

keep_limit_lem :
    (v u : LimitValue)
    → positive_int v 0 ≡ positive_int u 0
    → positive_int v 1 ≡ positive_int u 1
    → keep_limit v ≡ keep_limit u
keep_limit_lem v u h k =
    over_lem (keep_limit v) (keep_limit u) (sym (positive_int-keep v 0) ∙ h ∙ positive_int-keep u 0)
      (sym (positive_int-keep v 1) ∙ k ∙ positive_int-keep u 1)

same_baseline : ℕ → AgentLimits
same_baseline n = record { max_turns = n; max_wall_ms = n }

-- A request's key tells two declared budgets apart exactly where some baseline resolves them to
-- different budgets: equal keys run alike under every host, and budgets that run alike under every host
-- share a key.
pub canonical_limits_iff :
    (l m : DeclaredLimits)
    → (canonical_limits l ≡ canonical_limits m)
      ↔ ((b : AgentLimits) → resolve_limits l b ≡ resolve_limits m b)
unfolding canonical_limits resolve_limits same_baseline
canonical_limits_iff l m = (to, from)
  where
    pair : (t w : ℕ) → AgentLimits
    pair t w = record { max_turns = t; max_wall_ms = w }

    to :
        canonical_limits l ≡ canonical_limits m
        → (b : AgentLimits) → resolve_limits l b ≡ resolve_limits m b
    to h b =
        let t : keep_limit l.max_turns ≡ keep_limit m.max_turns = ap (λ c. c.turns) h in
        let w : keep_limit l.max_wall_ms ≡ keep_limit m.max_wall_ms = ap (λ c. c.wall_ms) h in
        let turns : positive_int l.max_turns b.max_turns ≡ positive_int m.max_turns b.max_turns =
          positive_int-keep l.max_turns b.max_turns
          ∙ ap (λ o. over o b.max_turns) t
          ∙ sym (positive_int-keep m.max_turns b.max_turns) in
        let wall : positive_int l.max_wall_ms b.max_wall_ms
            ≡ positive_int m.max_wall_ms b.max_wall_ms =
          positive_int-keep l.max_wall_ms b.max_wall_ms
          ∙ ap (λ o. over o b.max_wall_ms) w
          ∙ sym (positive_int-keep m.max_wall_ms b.max_wall_ms) in
        ap (λ x. pair x (positive_int l.max_wall_ms b.max_wall_ms)) turns
        ∙ ap (pair (positive_int m.max_turns b.max_turns)) wall

    from :
        ((b : AgentLimits) → resolve_limits l b ≡ resolve_limits m b)
        → canonical_limits l ≡ canonical_limits m
    from h =
        let at0 = h (same_baseline 0) in
        let at1 = h (same_baseline 1) in
        let t =
          keep_limit_lem l.max_turns m.max_turns (ap (λ b. b.max_turns) at0)
            (ap (λ b. b.max_turns) at1) in
        let w =
          keep_limit_lem l.max_wall_ms m.max_wall_ms (ap (λ b. b.max_wall_ms) at0)
            (ap (λ b. b.max_wall_ms) at1) in
        cc
