-- ===== src/Agent/History.antt =====
-- src/agent/history.ts: the deterministic Session message ids, and the text of a stored message.
use Prim.Native.String.{◌++◌}
use Prim.Native.Char.{Char, code}
use looping_core.Base.{
  ℕ, ◌+◌, ◌*◌, ◌-◌, String, Bool, true, false, ◌&&◌, ◌||◌, Option, none, some, List, [], ◌∷◌, show,
  leb, ◌==◌, str_eq, if◌then◌else◌, ◌≡◌, refl,
}

-- A stored message may also have another role, such as `system`.
pub data Role : Type 0 where
  user assistant other_role : Role

pub data MessagePart : Type 0 where
  text_part : String → MessagePart
  other_part : MessagePart

-- `createdAt` is written and not read here.
pub record SessionMessage : Type 0 where
  pub id : String
  pub role : Role
  pub parts : List MessagePart

unfoldable pub task_user_message_id : String → String
task_user_message_id task_id = "task:" ++ (task_id ++ ":user")

unfoldable pub round_ack_message_id : String → ℕ → String
round_ack_message_id task_id round = "task:" ++ (task_id ++ (":round:" ++ (show round ++ ":ack")))

unfoldable pub final_reply_message_id : String → String
final_reply_message_id task_id = "task:" ++ (task_id ++ ":reply:final")

unfoldable pub deterministic_session_message : String → Role → String → SessionMessage
deterministic_session_message id role text = record {
  id = id;
  role = role;
  parts = text_part text ∷ [];
}

-- The text parts, joined.
texts : List MessagePart → String
texts [] = ""
texts (text_part t ∷ ps) = t ++ texts ps
texts (other_part ∷ ps) = texts ps

unfoldable pub session_text : SessionMessage → String
unfolding texts
session_text m = texts m.parts

-- The rest of `s` behind the prefix `p`.
strip_prefix : String → String → Option String
strip_prefix String.[] s = some s
strip_prefix (String.◌∷◌ a p) String.[] = none
strip_prefix (String.◌∷◌ a p) (String.◌∷◌ c s) = if code a == code c then strip_prefix p s else none

is_digit : ℕ → Bool
is_digit c = leb b'0' c && leb c b'9'

-- `(\d+):ack$`, given the number read so far and whether a digit was read.
read_round : Bool → ℕ → String → Option ℕ
unfolding is_digit
read_round seen acc String.[] = none
read_round seen acc (String.◌∷◌ c s) =
    let more = read_round true (acc * 10 + (code c - b'0')) s in
    if is_digit (code c)
    then more
    else if seen && str_eq (String.◌∷◌ c s) ":ack"
    then some acc
    else none

-- `:round:(\d+):ack$`.
ack_suffix : String → Option ℕ
unfolding strip_prefix read_round
ack_suffix s = elim (strip_prefix ":round:" s) [ none ↦ none | some rest ↦ read_round false 0 rest ]

prepend : Char → Option (String × ℕ) → Option (String × ℕ)
prepend c none = none
prepend c (some (t, r)) = some (String.◌∷◌ c t, r)

-- The task id before the suffix. A suffix holds no further suffix, so one split fits at most. `.`
-- matches no line terminator.
ack_split : String → Option (String × ℕ)
unfolding ack_suffix prepend
ack_split String.[] = none
ack_split (String.◌∷◌ c s) =
    let rest = ack_split s in
    elim (ack_suffix (String.◌∷◌ c s)) [
      | some r ↦ some ("", r)
      | none ↦ if is_line_end (code c) then none else prepend c rest
    ]
  where
    is_line_end : ℕ → Bool
    is_line_end c = c == 10 || (c == 13 || (c == 8232 || c == 8233))

-- `(.+)` takes one character at least.
some_task : Option (String × ℕ) → Option (String × ℕ)
some_task none = none
some_task (some (t, r)) = if str_eq t "" then none else some (t, r)

unfoldable pub parse_round_ack_message_id : String → Option (String × ℕ)
unfolding strip_prefix ack_split some_task
parse_round_ack_message_id id = elim (strip_prefix "task:" id) [
  | none ↦ none
  | some body ↦ some_task (ack_split body)
]

parses_ack : parse_round_ack_message_id "task:a:round:7:x:round:12:ack" ≡ some ("a:round:7:x", 12)
unfolding parse_round_ack_message_id
parses_ack = refl

parses_own_ack : parse_round_ack_message_id (round_ack_message_id "t-1" 205) ≡ some ("t-1", 205)
unfolding parse_round_ack_message_id round_ack_message_id show
parses_own_ack = refl

rejects_reply : parse_round_ack_message_id (final_reply_message_id "t-1") ≡ none
unfolding parse_round_ack_message_id final_reply_message_id
rejects_reply = refl
