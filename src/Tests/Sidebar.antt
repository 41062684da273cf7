-- ===== src/Tests/Sidebar.antt =====
-- The theorem on the sidebar: bob opens a direct chat with carol.
use talkertive_chat_app.Base.{◌≡◌, refl, none, some, [], string_eq}
use talkertive_chat_app.World.Memory.{memory}
use talkertive_chat_app.Rooms.{create_direct_room}
use talkertive_chat_app.ChatPanel.DirectChat.{handle_open_direct_chat}
use talkertive_chat_app.Sidebar.{Sidebar, handle_navigate_to_room}
use talkertive_chat_app.Sidebar.Opening.{handle_navigate_to_room_lem}
use talkertive_chat_app.Tests.Samples.{chat, next}

abbrev waiting : Sidebar
waiting = record { rooms = []; selected_room = none; pending_room_id = some "study" }

handle_navigate_to_room_lem_example :
    (handle_navigate_to_room memory
      (some "bob")
      (handle_open_direct_chat memory next "bob" "carol" chat).1
      "new"
      waiting).pending_room_id
    ≡ none
unfolding memory handle_open_direct_chat create_direct_room
handle_navigate_to_room_lem_example =
    (handle_navigate_to_room_lem memory next "bob" "carol" "new" waiting chat refl refl).3
