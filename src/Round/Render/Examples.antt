-- ===== src/Round/Render/Examples.antt =====
-- A conversation of three messages, rendered as src/round/turn.ts shows it.
use looping_core.Base.{String, Bool, false, List, [], ◌∷◌, get_elem?, some, ◌≡◌, refl, is_blank}
use looping_core.Agent.History.{
  Role, SessionMessage, text_part, parse_round_ack_message_id, session_text,
}
use looping_core.Subtasks.Types.{assistant}
use looping_core.Round.Render.{ReferenceCatalogEntry, by_round, render_turn_messages}
use looping_core.Round.Render.Marks.{IsMarked, render_turn_messages-IsMarked}

abbrev said : String → Role → String → SessionMessage
said id role text = record { id = id; role = role; parts = text_part text ∷ [] }

abbrev never : SessionMessage → Bool
never m = false

abbrev history : List SessionMessage
history =
    said "task:t:user" Role.user "hello"
    ∷ said "blank" Role.assistant "  "
    ∷ said "task:t:reply:final" Role.assistant "hi there"
    ∷ []

abbrev second : ReferenceCatalogEntry
second = record { index = 2; role = assistant; text = "hi there" }

second_is_cited :
    get_elem? (render_turn_messages {Input = String} {E = String} never history "t" []).1 1
    ≡ some second
unfolding render_turn_messages by_round parse_round_ack_message_id is_blank session_text
second_is_cited = refl

render_turn_messages-IsMarked_example :
    IsMarked (render_turn_messages {Input = String} {E = String} never history "t" []).0 1 second
render_turn_messages-IsMarked_example =
    render_turn_messages-IsMarked {Input = String} {E = String} never history "t" [] 1 second
      second_is_cited
