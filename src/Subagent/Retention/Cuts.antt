-- ===== src/Subagent/Retention/Cuts.antt =====
-- The cutoff of `elideToolOutputs`, a position, against the rule, a count of turns.
use looping_core.Base.{
  ℕ, zero, suc, ◌≤◌, ◌<◌, ◌+◌, ◌-◌, Bool, true, false, Option, none, some, List, [], ◌∷◌, length,
  get_elem?, leb, ◌≡◌, refl, ap, arith, Bool-cases, inl, inr,
}
use looping_core.Subagent.Messages.{
  Message, system, user, assistant, tool, assistant_indices, cutoff_at, detail_cutoff,
}
use looping_core.Subagent.Retention.{turns, IsRecent}

-- What the cutoff says of a message, against the rule.
abbrev pub Decides : Bool → Type 0 → Type 0
Decides true R = R
Decides false R = ¬ R

decides_false : {R : Type 0} (b : Bool) → b ≡ false → ¬ R → Decides b R
decides_false false e r = r
decides_false true e r = absurd (cc)

decides_true : {R : Type 0} (b : Bool) → b ≡ true → R → Decides b R
decides_true true e r = r
decides_true false e r = absurd (cc)

index_found {ℓ} :
    {A : Type ℓ} (n : ℕ) (xs : List A) → n < length xs → (x : A) × (get_elem? xs n ≡ some x)
index_found n [] h = absurd (omega arith)
index_found zero (x ∷ xs) h = (x, refl)
index_found (suc n) (x ∷ xs) h = index_found n xs (omega arith)

module _ {Json : Type 0} where
  abbrev pub CutsAt : ℕ → ℕ → Message Json → Type 0 → Type 0
  CutsAt cutoff i (tool ps) R = Decides (leb cutoff i) R
  CutsAt cutoff i _ R = Unit

  abbrev pub Cuts : ℕ → Option ℕ → ℕ → ℕ → List (Message Json) → Type 0
  Cuts cutoff width total i [] = Unit
  Cuts cutoff width total i (m ∷ ms) =
      CutsAt cutoff i m (IsRecent width total ms) × Cuts cutoff width total (suc i) ms

  length-turns : (i : ℕ) (ms : List (Message Json)) → length (assistant_indices i ms) ≡ turns ms
  unfolding assistant_indices
  length-turns i [] = refl
  length-turns i (system t ∷ ms) = length-turns (suc i) ms
  length-turns i (user t ∷ ms) = length-turns (suc i) ms
  length-turns i (assistant c ∷ ms) = ap suc (length-turns (suc i) ms)
  length-turns i (tool ps ∷ ms) = length-turns (suc i) ms

  Cuts-all :
      (width : Option ℕ) (total i : ℕ) (ms : List (Message Json))
      → ((later : List (Message Json)) → IsRecent width total later)
      → Cuts 0 width total i ms
  Cuts-all width total i [] h = tt
  Cuts-all width total i (system t ∷ ms) h = (tt, Cuts-all width total (suc i) ms h)
  Cuts-all width total i (user t ∷ ms) h = (tt, Cuts-all width total (suc i) ms h)
  Cuts-all width total i (assistant t ∷ ms) h = (tt, Cuts-all width total (suc i) ms h)
  Cuts-all width total i (tool ps ∷ ms) h =
      (decides_true (leb 0 i) (ground arith) (h ms), Cuts-all width total (suc i) ms h)

  none-IsRecent : (total : ℕ) (later : List (Message Json)) → ¬ IsRecent (some 0) total later
  none-IsRecent total later (inl h) = omega arith
  none-IsRecent total later (inr h) = omega (arith, h.0)

  Cuts-none :
      (cutoff total i : ℕ) (ms : List (Message Json))
      → i + length ms ≤ cutoff
      → Cuts cutoff (some 0) total i ms
  Cuts-none cutoff total i [] h = tt
  Cuts-none cutoff total i (system t ∷ ms) h = (tt, Cuts-none cutoff total (suc i) ms (omega arith))
  Cuts-none cutoff total i (user t ∷ ms) h = (tt, Cuts-none cutoff total (suc i) ms (omega arith))
  Cuts-none cutoff total i (assistant t ∷ ms) h =
      (tt, Cuts-none cutoff total (suc i) ms (omega arith))
  Cuts-none cutoff total i (tool ps ∷ ms) h = (
    decides_false (leb cutoff i) (ground arith) (none-IsRecent total ms),
    Cuts-none cutoff total (suc i) ms (omega arith),
  )

  Cuts-after :
      (cutoff k total i : ℕ) (ms : List (Message Json))
      → cutoff ≤ i
      → turns ms < k
      → Cuts cutoff (some k) total i ms
  Cuts-after cutoff k total i [] h few = tt
  Cuts-after cutoff k total i (system t ∷ ms) h few =
      (tt, Cuts-after cutoff k total (suc i) ms (omega arith) few)
  Cuts-after cutoff k total i (user t ∷ ms) h few =
      (tt, Cuts-after cutoff k total (suc i) ms (omega arith) few)
  Cuts-after cutoff k total i (assistant t ∷ ms) h few =
      (tt, Cuts-after cutoff k total (suc i) ms (omega arith) (omega arith))
  Cuts-after cutoff k total i (tool ps ∷ ms) h few = (
    decides_true (leb cutoff i) (ground arith) (inl few),
    Cuts-after cutoff k total (suc i) ms (omega arith) few,
  )

  index_bound :
      (i n c : ℕ) (ms : List (Message Json)) → get_elem? (assistant_indices i ms) n ≡ some c → i ≤ c
  unfolding assistant_indices
  index_bound i n c [] h = absurd (cc)
  index_bound i n c (system t ∷ ms) h = let b = index_bound (suc i) n c ms h in omega arith
  index_bound i n c (user t ∷ ms) h = let b = index_bound (suc i) n c ms h in omega arith
  index_bound i zero c (assistant t ∷ ms) h = let e : i ≡ c = cc in omega arith
  index_bound i (suc n) c (assistant t ∷ ms) h = let b = index_bound (suc i) n c ms h in omega arith
  index_bound i n c (tool ps ∷ ms) h = let b = index_bound (suc i) n c ms h in omega arith

  -- The cutoff is at the turn that has `n` others before it, `k` turns from the end.
  Cuts-before :
      (cutoff k total i n : ℕ) (ms : List (Message Json))
      → k < total
      → 1 ≤ k
      → n + k ≡ turns ms
      → get_elem? (assistant_indices i ms) n ≡ some cutoff
      → Cuts cutoff (some k) total i ms
  unfolding assistant_indices
  Cuts-before cutoff k total i n [] many pos e h = tt
  Cuts-before cutoff k total i n (system t ∷ ms) many pos e h =
      (tt, Cuts-before cutoff k total (suc i) n ms many pos e h)
  Cuts-before cutoff k total i n (user t ∷ ms) many pos e h =
      (tt, Cuts-before cutoff k total (suc i) n ms many pos e h)
  Cuts-before cutoff k total i zero (assistant t ∷ ms) many pos e h =
      let same : i ≡ cutoff = cc in
      (tt, Cuts-after cutoff k total (suc i) ms (omega arith) (omega arith))
  Cuts-before cutoff k total i (suc n) (assistant t ∷ ms) many pos e h =
      (tt, Cuts-before cutoff k total (suc i) n ms many pos (omega arith) h)
  Cuts-before cutoff k total i n (tool ps ∷ ms) many pos e h =
      let b = index_bound (suc i) n cutoff ms h in
      (
        decides_false (leb cutoff i) (ground arith)
            (λ r. elim r [ inl few ↦ omega arith | inr whole ↦ omega (arith, whole.1) ]),
        Cuts-before cutoff k total (suc i) n ms many pos e h,
      )

  pub Cuts-detail :
      (ms : List (Message Json)) (width : Option ℕ)
      → Cuts (detail_cutoff ms width) width (turns ms) 0 ms
  unfolding detail_cutoff cutoff_at
  Cuts-detail ms none = Cuts-all none (turns ms) 0 ms (λ later. tt)
  Cuts-detail ms (some zero) = Cuts-none (length ms) (turns ms) 0 ms (omega arith)
  Cuts-detail ms (some (suc k)) =
      let count = length-turns 0 ms in
      let all = assistant_indices 0 ms in
      elim (Bool-cases (leb (length all) (suc k))) [
        | inl few ↦
            let fits : turns ms ≤ suc k = ground arith in
            rw few (Cuts-all (some (suc k)) (turns ms) 0 ms (λ later. inr (omega arith, fits)))
        | inr many ↦
            let over : suc k < turns ms = ground arith in
            let (c, found) = index_found (length all - suc k) all (omega arith) in
            rw (many, found)
              (Cuts-before c (suc k) (turns ms) 0 (length all - suc k) ms over (omega arith)
                (omega arith) found)
      ]
