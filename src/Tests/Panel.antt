-- ===== src/Tests/Panel.antt =====
-- The theorems on the client's panel, its calendar and the pages of messages at concrete data.
use talkertive_chat_app.Base.{
  ◌++◌, ◌+◌, String, true, false, ◌≡◌, ◌≤◌, refl, none, some, arith, Option, id_iff, take, List, [],
  ◌∷◌, string_eq,
}
use talkertive_chat_app.Schema.{MessageAttachment}
use talkertive_chat_app.World.{World, ok}
use talkertive_chat_app.World.Memory.{memory}
use talkertive_chat_app.Chat.{
  FullMessage, SendMessageDto, edit_message, attachments_of, new_attachment, full_message,
  get_messages, send_message, store_message, create_attachments, new_message as stored_message,
}
use talkertive_chat_app.Chat.Paging.{get_messages-take, history}
use talkertive_chat_app.Chat.Gateway.{Socket, typing, edit, user_typing}
use talkertive_chat_app.ChatPanel.{
  Panel, on_room_joined, on_new_message, advance, typing_timeout_ms,
}
use talkertive_chat_app.ChatPanel.Sync.{Shows}
use talkertive_chat_app.ChatPanel.Joining.{on_room_joined-Shows, on_new_message-twice, times_shown}
use talkertive_chat_app.ChatPanel.Traffic.{Arrival, deliver, deliver-Shows, sent_ids}
use talkertive_chat_app.ChatPanel.Order.{ids}
use talkertive_chat_app.ChatPanel.Attachments.{edited_message_lem}
use talkertive_chat_app.ChatPanel.Happenings.{Happening, heard, typed, run}
use talkertive_chat_app.ChatPanel.Typing.{Pending, typing-ends}
use talkertive_chat_app.ChatPanel.OwnTyping.{Told, run-Told}
use talkertive_chat_app.Tests.Samples.{chat, next, hello}

abbrev open_panel : Panel
open_panel = record {
  messages = [];
  input = "";
  editing_id = none;
  edit_content = "";
  typing_user_ids = [];
  typing_timeouts = [];
  is_typing = false;
  typing_debounce = none;
  has_socket = true;
  is_connected = true;
  sent = [];
}

abbrev shown : List FullMessage
shown = full_message memory hello chat ∷ []

on_room_joined-Shows_example :
    Shows memory "study" chat (on_room_joined "study" shown open_panel).messages
unfolding memory get_messages
on_room_joined-Shows_example =
    on_room_joined-Shows memory "bob" "study" chat shown open_panel (omega arith) refl

-- bob's token is his name.
abbrev named : String → Option String
named token = some token

abbrev bob_socket : Socket
bob_socket = record { id = "socket"; auth_token = some "bob"; authorization = none }

abbrev arrivals : List Arrival
arrivals =
    record { fresh = next; socket = bob_socket; event = edit "hello" "bye"; heard_at = 10 }
    ∷ record { fresh = next; socket = bob_socket; event = typing "study" true; heard_at = 11 }
    ∷ []

deliver-Shows_example :
    let joined = on_room_joined "study" shown open_panel in
    let (w, l) = deliver memory named "study" "own" arrivals (chat, joined) in
    Shows memory "study" w l.messages
    × (ids l ≡ ids joined ++ sent_ids memory named "study" "own" arrivals chat)
deliver-Shows_example =
    deliver-Shows memory named "study" "own" arrivals chat (on_room_joined "study" shown open_panel)
      on_room_joined-Shows_example

abbrev photo : MessageAttachment
photo =
    new_attachment next "hello" 0
      (record { url = "photo.png"; name = "photo"; size = 7; mime_type = "image/png" })

abbrev with_photo : World
with_photo = record chat { attachments = photo ∷ [] }

edited_message_lem_example :
    attachments_of memory (edit_message memory "bob" "hello" "bye" with_photo).1 hello ≡ photo ∷ []
unfolding memory edit_message talkertive_chat_app.Chat.Gateway.handle_edit_message
edited_message_lem_example =
    (edited_message_lem memory "study" 10 "own" "bob" "hello" "bye" with_photo open_panel hello refl
      refl refl).0

abbrev note : SendMessageDto
note = record { room_id = "study"; content = some "note"; attachments = none }

abbrev noted : FullMessage
noted = full_message memory (stored_message next "bob" note) chat

abbrev with_note : List FullMessage
with_note = noted ∷ full_message memory hello chat ∷ []

on_new_message-twice_example :
    2
    ≤ times_shown memory "new"
        (on_new_message "study" noted (on_room_joined "study" with_note open_panel)).messages
unfolding memory send_message store_message create_attachments get_messages
on_new_message-twice_example =
    on_new_message-twice memory next "bob" "alice" note chat noted with_note open_panel refl
      (omega arith) refl

get_messages-take_example :
    (get_messages memory "bob" "study" none 5 chat).0 ≡ ok (take 5 (history memory "study" chat))
unfolding memory
get_messages-take_example =
    (get_messages-take memory "bob" "study" 5 chat refl
      (λ a b h k _ _ _. ground (arith, id_iff "hello" a.id, id_iff "hello" b.id))).0

no_one : Pending 1_000 open_panel
no_one = record { timed = λ u h. absurd (ground arith); due = tt }

abbrev happenings : List Happening
happenings = heard 500 (user_typing "alice" true) ∷ typed 600 "h" ∷ []

typing-ends_example :
    (advance (1_000 + typing_timeout_ms) (run "study" happenings open_panel)).typing_user_ids ≡ []
typing-ends_example = typing-ends "study" 1_000 happenings open_panel (refl, (refl, tt)) no_one

quiet : Told open_panel
quiet = record { socket = refl; debouncing = refl; told = refl }

run-Told_example : Told (run "study" happenings open_panel)
run-Told_example = run-Told "study" happenings open_panel quiet
