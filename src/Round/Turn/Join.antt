-- ===== src/Round/Turn/Join.antt =====
-- src/round/turn.ts, `joinSuccessfulBranches`: the reply that needs no model.
use Prim.Native.String.{◌++◌}
use looping_core.Base.{
  String, Bool, true, false, none, some, List, [], ◌∷◌, map, length, keep_if, ltb, if◌then◌else◌,
}
use looping_core.Subtasks.Types.{completed, CompositionBranch}

unfoldable pub is_completed : CompositionBranch → Bool
is_completed b = elim b.status [ completed ↦ true | _ ↦ false ]

-- `Array.prototype.join`.
join : String → List String → String
join sep [] = ""
join sep (t ∷ []) = t
join sep (t ∷ u ∷ ts) = t ++ (sep ++ join sep (u ∷ ts))

branch_text : CompositionBranch → String
unfolding join
branch_text b = elim b.result_parts [ none ↦ "" | some parts ↦ join "\n" parts ]

-- The completed branches' texts in order, with the note where a branch is missing.
unfoldable pub join_successful_branches : List CompositionBranch → String → String
unfolding is_completed branch_text join
join_successful_branches branches partial_note =
    let successes = keep_if is_completed branches in
    let body = join "\n\n" (map branch_text successes) in
    if ltb (length successes) (length branches) then body ++ ("\n\n" ++ partial_note) else body
