-- ===== src/Round/Render.antt =====
-- src/round/turn.ts, the model's view of one round: the conversation, each earlier round's delegation
-- restored as a call and its result, and the catalog of the messages that a subtask may cite.
-- `isCompactionMessage` is the Agents SDK's, and enters as a test. The JSON of a restored call and of
-- its result is not rendered: the message holds the branches that it is made from.
use Prim.Native.String.{◌++◌ as ◌<>◌}
use looping_core.Base.{
  ℕ, ◌+◌, String, Bool, not, ◌&&◌, Option, none, some, List, [], ◌∷◌, ◌++◌, length, keep_if, any,
  leb, ◌==◌, str_eq, if◌then◌else◌, show, is_blank,
}
use looping_core.Agent.History.{
  Role, other_role, SessionMessage, session_text, round_ack_message_id, parse_round_ack_message_id,
}
use looping_core.Subtasks.Types.{Speaker, user, assistant, CompositionBranch}
pub mod Marks
pub mod Examples

-- What a model is shown. `Input` is the type of an unchecked call's input, `E` that of errors.
pub data ModelMessage (Input E : Type 0) : Type 0 where
  plain : Speaker → String → ModelMessage Input E
  delegate_call : String → Option String → List CompositionBranch → ModelMessage Input E
  delegate_result : String → List CompositionBranch → ModelMessage Input E
  rejected_call : String → String → Input → ModelMessage Input E
  rejection : String → String → E → ModelMessage Input E

-- One citable message: its 1-based index, and its role and text.
pub record ReferenceCatalogEntry : Type 0 where
  pub index : ℕ
  pub role : Speaker
  pub text : String

-- A `Map` from rounds to branches, in order of first insertion.
abbrev pub Rounds : Type 0
Rounds = List (ℕ × List CompositionBranch)

add_branch : CompositionBranch → Rounds → Rounds
add_branch b [] = (b.round, b ∷ []) ∷ []
add_branch b ((r, bs) ∷ rest) =
    if r == b.round then (r, bs ++ b ∷ []) ∷ rest else (r, bs) ∷ add_branch b rest

by_round_from : Rounds → List CompositionBranch → Rounds
unfolding add_branch
by_round_from rounds [] = rounds
by_round_from rounds (b ∷ bs) = by_round_from (add_branch b rounds) bs

unfoldable pub by_round : List CompositionBranch → Rounds
unfolding by_round_from
by_round bs = by_round_from [] bs

-- The round whose acknowledgment carries this id.
unfoldable pub ack_round : String → Rounds → String → Option (ℕ × List CompositionBranch)
ack_round task_id [] id = none
ack_round task_id ((r, bs) ∷ rest) id =
    if str_eq (round_ack_message_id task_id r) id then some (r, bs) else ack_round task_id rest id

unfoldable pub delegate_tool_call_id : String → ℕ → String
delegate_tool_call_id task_id round =
    "task_" <> (task_id <> ("_round_" <> (show round <> "_delegate")))

unfoldable pub ref_mark : ℕ → String → String
ref_mark index text = "[ref " <> (show index <> ("] " <> text))

insert_round : ℕ × List CompositionBranch → Rounds → Rounds
insert_round x [] = x ∷ []
insert_round x (y ∷ ys) = if leb x.0 y.0 then x ∷ y ∷ ys else y ∷ insert_round x ys

-- `sort(([a], [b]) => a - b)`.
sort_rounds : Rounds → Rounds
unfolding insert_round
sort_rounds [] = []
sort_rounds (x ∷ xs) = insert_round x (sort_rounds xs)

unfoldable pub speaker : Role → Option Speaker
speaker Role.user = some user
speaker Role.assistant = some assistant
speaker other_role = none

-- The accumulators of the walk over the history.
pub record View (Input E : Type 0) : Type 0 where
  pub messages : List (ModelMessage Input E)
  pub catalog : List ReferenceCatalogEntry
  pub anchored : List ℕ

-- src/subtasks/catalog.ts, for a message whose role is a speaker's.
unfoldable pub is_catalog_eligible : (SessionMessage → Bool) → SessionMessage → Bool
is_catalog_eligible is_compaction m = not (is_compaction m) && not (is_blank (session_text m))

module _ {Input E : Type 0} (is_compaction : SessionMessage → Bool) where
  unfoldable pub delegation_pair :
      String → ℕ → Option String → List CompositionBranch → List (ModelMessage Input E)
  delegation_pair task_id round reply_text bs =
      delegate_call (delegate_tool_call_id task_id round) reply_text bs
      ∷ delegate_result (delegate_tool_call_id task_id round) bs
      ∷ []

  unfoldable pub push : View Input E → List (ModelMessage Input E) → View Input E
  push v ms = record v { messages = v.messages ++ ms }

  -- A citable message takes the next index, in the catalog and in its mark.
  unfoldable pub cite : View Input E → Speaker → String → View Input E
  unfolding push
  cite v role text =
      let index = length v.catalog + 1 in
      record (push v (plain role (ref_mark index text) ∷ [])) {
        catalog = v.catalog ++ record { index = index; role = role; text = text } ∷ [];
      }

  -- An acknowledgment with no branches behind it: this Task's own is dropped.
  unfoldable pub loose_ack : String → String → View Input E → Speaker → String → View Input E
  unfolding push
  loose_ack task_id owner v role text =
      if str_eq owner task_id then v else push v (plain role text ∷ [])

  unfoldable pub place : String → View Input E → SessionMessage → Speaker → View Input E
  unfolding is_catalog_eligible push cite loose_ack
  place task_id v m role = elim (parse_round_ack_message_id m.id) [
    | some (owner, _) ↦ loose_ack task_id owner v role (session_text m)
    | none ↦
        if is_catalog_eligible is_compaction m
        then cite v role (session_text m)
        else push v (plain role (session_text m) ∷ [])
  ]

  unfoldable pub visit : String → Rounds → View Input E → SessionMessage → View Input E
  unfolding push delegation_pair place speaker ack_round
  visit task_id rounds v m = elim (speaker m.role) [
    | none ↦ v
    | some role ↦ elim (ack_round task_id rounds m.id) [
      | some (round, bs) ↦
          record (push v (delegation_pair task_id round (some (session_text m)) bs)) {
            anchored = round ∷ v.anchored;
          }
      | none ↦ place task_id v m role
    ]
  ]

  unfoldable pub walk : String → Rounds → View Input E → List SessionMessage → View Input E
  unfolding visit
  walk task_id rounds v [] = v
  walk task_id rounds v (m ∷ ms) = walk task_id rounds (visit task_id rounds v m) ms

  unfoldable pub orphans : String → Rounds → List (ModelMessage Input E)
  unfolding delegation_pair
  orphans task_id [] = []
  orphans task_id ((r, bs) ∷ rest) = delegation_pair task_id r none bs ++ orphans task_id rest

  -- The messages of one round's inference, and the catalog that their marks refer to.
  unfoldable pub render_turn_messages :
      List SessionMessage
      → String
      → List CompositionBranch
      → List (ModelMessage Input E) × List ReferenceCatalogEntry
  unfolding walk orphans sort_rounds
  render_turn_messages history task_id branches =
      let rounds = by_round branches in
      let v = walk task_id rounds (record { messages = []; catalog = []; anchored = [] }) history in
      let left = keep_if (λ r. not (any (λ a. a == r.0) v.anchored)) rounds in
      (v.messages ++ orphans task_id (sort_rounds left), v.catalog)
