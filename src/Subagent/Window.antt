-- ===== src/Subagent/Window.antt =====
-- src/subagent/run.ts, `windowMessages`: what the window keeps.
use looping_core.Base.{
  ℕ, zero, suc, ◌+◌, ◌-◌, ◌≤◌, ◌<◌, false, some, List, [], ◌∷◌, ◌++◌, length, drop, get_elem?, leb,
  ◌≡◌, refl, ap, ◌∙◌, arith, Bool-cases, inl, inr,
}
use looping_core.Subagent.Messages.{
  Message, system, user, assistant, tool, assistant_indices, slice_from, window_messages,
}

module _ {Json : Type 0} where
  unfoldable pub count_turns : List (Message Json) → ℕ
  unfolding assistant_indices
  count_turns ms = length (assistant_indices 0 ms)

  indices-shift :
      (i j : ℕ) (ms : List (Message Json))
      → length (assistant_indices i ms) ≡ length (assistant_indices j ms)
  unfolding assistant_indices
  indices-shift i j [] = refl
  indices-shift i j (system t ∷ ms) = indices-shift (suc i) (suc j) ms
  indices-shift i j (user t ∷ ms) = indices-shift (suc i) (suc j) ms
  indices-shift i j (assistant c ∷ ms) = ap suc (indices-shift (suc i) (suc j) ms)
  indices-shift i j (tool ps ∷ ms) = indices-shift (suc i) (suc j) ms

  -- A list, its first message at `i`, parted at the assistant message that has `n` of them before it.
  pub record PartedAt (i n : ℕ) (ms : List (Message Json)) : Type 0 where
    pub before : List (Message Json)
    pub turn : Json
    pub rest : List (Message Json)
    pub parts : ms ≡ before ++ (assistant turn ∷ rest)
    pub found : get_elem? (assistant_indices i ms) n ≡ some (i + length before)
    pub left : suc (count_turns rest) + n ≡ length (assistant_indices i ms)

  -- With another message before it, which is a turn or none.
  push :
      (m : Message Json) (i n n' : ℕ) (ms : List (Message Json)) (p : PartedAt (suc i) n ms)
      → get_elem? (assistant_indices i (m ∷ ms)) n' ≡ get_elem? (assistant_indices (suc i) ms) n
      → (suc (count_turns p.rest) + n' ≡ length (assistant_indices i (m ∷ ms)))
      → PartedAt i n' (m ∷ ms)
  push m i n n' ms p at count = record {
    before = m ∷ p.before;
    turn = p.turn;
    rest = p.rest;
    parts = ap (λ xs. m ∷ xs) p.parts;
    found = at ∙ p.found ∙ ap some (omega arith);
    left = count;
  }

  part_at :
      (ms : List (Message Json)) (i n : ℕ) → n < length (assistant_indices i ms) → PartedAt i n ms
  unfolding assistant_indices count_turns
  part_at [] i n h = absurd (omega arith)
  part_at (system t ∷ ms) i n h =
      let p = part_at ms (suc i) n h in push (system t) i n n ms p refl p.left
  part_at (user t ∷ ms) i n h =
      let p = part_at ms (suc i) n h in push (user t) i n n ms p refl p.left
  part_at (tool ps ∷ ms) i n h =
      let p = part_at ms (suc i) n h in push (tool ps) i n n ms p refl p.left
  part_at (assistant c ∷ ms) i zero h = record {
    before = [];
    turn = c;
    rest = ms;
    parts = refl;
    found = ap some (omega arith);
    left = omega (arith, indices-shift 0 (suc i) ms);
  }
  part_at (assistant c ∷ ms) i (suc n) h =
      let p = part_at ms (suc i) n (omega arith) in
      push (assistant c) i n (suc n) ms p refl (omega (arith, p.left))

  drop-before : (xs ys : List (Message Json)) → drop (length xs) (xs ++ ys) ≡ ys
  drop-before [] ys = refl
  drop-before (x ∷ xs) ys = drop-before xs ys

  -- What the window makes of a conversation: nothing is dropped, or the turns right after the seed are.
  pub data Windowed (seed : Message Json) (rest : List (Message Json)) (window : ℕ)
      : List (Message Json) → Type 0 where
    whole :
        {ms : List (Message Json)}
        → ms ≡ seed ∷ rest
        → count_turns rest ≤ window
        → Windowed seed rest window ms
    trimmed :
        (before : List (Message Json)) (turn : Json) (after : List (Message Json))
        {ms : List (Message Json)}
        → rest ≡ before ++ (assistant turn ∷ after)
        → ms ≡ seed ∷ assistant turn ∷ after
        → count_turns (assistant turn ∷ after) ≡ window
        → Windowed seed rest window ms

  cut_at :
      (seed : Message Json) (rest : List (Message Json)) (window : ℕ)
      → leb (length (assistant_indices 1 rest)) window ≡ false
      → PartedAt 1 (length (assistant_indices 1 rest) - window) rest
      → Windowed seed rest window (window_messages (seed ∷ rest) window)
  unfolding window_messages slice_from count_turns assistant_indices
  cut_at seed rest window over p =
      let one : 1 + length p.before ≡ suc (length p.before) = omega arith in
      rw (over, p.found)
        (trimmed p.before p.turn p.rest p.parts
          (ap (λ k. seed ∷ drop k (seed ∷ rest)) one
            ∙ ap (λ ms. seed ∷ drop (length p.before) ms) p.parts
            ∙ ap (λ ms. seed ∷ ms) (drop-before p.before (assistant p.turn ∷ p.rest)))
          (ground (arith, p.left, indices-shift 0 1 p.rest)))

  -- The window of a conversation keeps the seed and all of the rest, which holds no more turns than the
  -- window; or it keeps the seed and a tail of the rest that begins with an assistant message (so no tool
  -- result is without its call) and holds just as many turns as the window. The window is not zero.
  pub window_messages-Windowed :
      (seed : Message Json) (rest : List (Message Json)) (window : ℕ)
      → 1 ≤ window
      → Windowed seed rest window (window_messages (seed ∷ rest) window)
  unfolding window_messages slice_from count_turns assistant_indices
  window_messages-Windowed seed rest window pos =
      let turns = assistant_indices 1 rest in
      elim (Bool-cases (leb (length turns) window)) [
        | inl fits ↦ rw fits (whole refl (ground (arith, indices-shift 0 1 rest)))
        | inr over ↦
            cut_at seed rest window over (part_at rest 1 (length turns - window) (ground arith))
      ]
