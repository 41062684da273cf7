-- ===== src/Tests/Channels.antt =====
-- The theorems on the gateway's channels at a room in which a stranger listens.
use talkertive_chat_app.Base.{
  Option, none, some, String, Bool, true, false, ◌≡◌, refl, not, ◌&&◌, ◌||◌, List, [], ◌∷◌, ◌==◌,
  string_eq, In,
}
use talkertive_chat_app.World.{is_ok}
use talkertive_chat_app.World.Memory.{memory}
use talkertive_chat_app.Chat.{
  SendMessageDto, FullMessage, send_message, full_message, get_messages,
  new_message as stored_message, store_message, create_attachments,
}
use talkertive_chat_app.Chat.Gateway.{
  Server, Socket, Call, join, leave, disconnect, emit, emit_from, new_message, join_room, typing,
  room_channel, handle_send_message, handle_event, can_activate, dispatch, handle_typing,
  handle_join_room,
}
use talkertive_chat_app.Chat.Audience.{
  Adapter, Occurrence, closed, said, changed, run, is_in, run-is_in,
}
use talkertive_chat_app.Chat.Audience.Strangers.{stranger_hears}
use talkertive_chat_app.Tests.Samples.{chat, next}

-- Socket.io's rooms as its documentation has them.
abbrev standing : List Call → String → String → Bool
standing [] d k = false
standing (join c ch ∷ cs) d k = (c == d && ch == k) || standing cs d k
standing (leave c ch ∷ cs) d k = not (c == d && ch == k) && standing cs d k
standing (disconnect c ∷ cs) d k = not (c == d) && standing cs d k
standing (emit ch x ∷ cs) d k = standing cs d k
standing (emit_from c ch x ∷ cs) d k = standing cs d k

abbrev adapter : Adapter
adapter = record {
  in_channel = standing;
  in_channel-join = λ c ch cs d k. refl;
  in_channel-leave = λ c ch cs d k. refl;
  in_channel-disconnect = λ c cs d k. refl;
  in_channel-emit = λ ch x cs d k. refl;
  in_channel-emit_from = λ c ch x cs d k. refl;
}

-- A token is its subject.
abbrev verify : String → Option String
verify token = some token

abbrev carol : Socket
carol = record { id = "socket"; auth_token = some "carol"; authorization = none }

abbrev quiet : Server
quiet = record { world = chat; calls = [] }

abbrev meanwhile : List Occurrence
meanwhile = changed (λ w. w) ∷ closed "other" ∷ said next carol (typing "study" true) ∷ []

run-is_in_example :
    is_in memory adapter "socket" "study"
      (run memory verify (said next carol (join_room "study") ∷ meanwhile) quiet)
    ≡ true
unfolding can_activate
run-is_in_example =
    run-is_in memory adapter verify (said next carol (join_room "study") ∷ meanwhile) quiet "socket"
      "study"

abbrev question : SendMessageDto
question = record { room_id = "study"; content = some "when?"; attachments = none }

abbrev listening : Server
listening =
    run memory verify meanwhile (handle_event memory verify next carol (join_room "study") quiet).1

abbrev asked_question : FullMessage
asked_question =
    full_message memory (stored_message next "bob" question)
      (send_message memory next "bob" question chat).1

stranger_hears_example :
    (is_ok (handle_event memory verify next carol (join_room "study") quiet).0 ≡ false)
    × (is_in memory adapter "socket" "study" listening ≡ true)
    × In
        (emit (room_channel "study") (new_message asked_question))
        (handle_send_message memory next "bob" question listening).1.calls
unfolding memory handle_event run dispatch handle_typing handle_join_room can_activate send_message
    store_message create_attachments get_messages
stranger_hears_example =
    stranger_hears memory adapter verify next next carol "carol" "bob" "study" quiet meanwhile
      question asked_question refl refl (tt, (refl, (refl, tt))) refl refl
