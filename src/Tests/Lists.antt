-- ===== src/Tests/Lists.antt =====
-- The theorems on the client's list of rooms: alice writes to the room in which bob has a message.
use talkertive_chat_app.Base.{
  ℕ, ◌≡◌, refl, subst, none, some, arith, [], ◌∷◌, In, inl, inr, string_eq, id_iff,
}
use talkertive_chat_app.Schema.{Room, Message}
use talkertive_chat_app.World.Memory.{memory}
use talkertive_chat_app.Rooms.Queries.{my_room}
use talkertive_chat_app.Chat.{
  FullMessage, SendMessageDto, send_message, store_message, create_attachments, full_message,
  new_message, mark_as_read,
}
use talkertive_chat_app.Chat.Gateway.{payload_of}
use talkertive_chat_app.MyRooms.{MyRoom, handle_room_list_updated, mark_room_as_read}
use talkertive_chat_app.MyRooms.Counts.{
  heard, Agrees, handle_room_list_updated-counts, open_room-miscounted,
}
use talkertive_chat_app.Tests.Samples.{chat, next, study_room, member_of}

abbrev reply : SendMessageDto
reply = record { room_id = "study"; content = some "reply"; attachments = none }

abbrev sent : FullMessage
sent =
    full_message memory (new_message next "alice" reply)
      (send_message memory next "alice" reply chat).1

abbrev study : ℕ → MyRoom
study n = record {
  id = "study";
  name = none;
  my_role = none;
  last_message = none;
  unread_count = n;
}

abbrev listed : MyRoom
listed = record (study 2) {
  last_message = some (heard (payload_of memory "study" sent)).last_message;
}

agrees : (r : MyRoom) → In r (study 1 ∷ []) → Agrees memory "bob" chat r
unfolding memory
agrees r (inl same) = subst (Agrees memory "bob" chat) same (λ room stored.
    let is : study_room ≡ room = ground arith in
    subst (λ (k : Room). 1 ≡ (my_room memory "bob" chat k).unread_count) is refl)
agrees r (inr h) = absurd h

handle_room_list_updated-counts_example :
    2
    ≡ (my_room memory "bob" (send_message memory next "alice" reply chat).1 study_room).unread_count
unfolding memory send_message store_message create_attachments handle_room_list_updated
handle_room_list_updated-counts_example =
    handle_room_list_updated-counts memory next "alice" reply chat sent "bob"
      (member_of "study" "bob") (study 1 ∷ []) refl refl refl refl agrees listed study_room
      (inl refl) refl

open_room-miscounted_example :
    (my_room memory "bob"
      (mark_as_read memory "bob" "study" "new" (send_message memory next "alice" reply chat).1).1
      study_room).unread_count
    ≡ 0
unfolding memory send_message store_message create_attachments handle_room_list_updated
    mark_room_as_read
open_room-miscounted_example =
    (open_room-miscounted memory next "alice" reply chat sent "bob" (member_of "study" "bob")
      (study 1 ∷ []) study_room refl refl refl refl refl
      (λ (y : Message) there its kept. ground (arith, id_iff "hello" y.id))
      (record listed { unread_count = 1 }) (inl refl) refl).1
