-- ===== src/Sidebar.antt =====
-- frontend/components/ChatSidebar.tsx with frontend/store/chatSidebar.ts: the list of rooms and the
-- room whose panel is open. An effect runs once the state that it depends on is set. That a list is
-- loading, and how rooms are drawn, is left out.
pub mod Opening
use mathlib.Core.Option
use talkertive_chat_app.Base.{
  String, Bool, true, false, Option, none, some, List, [], ◌∷◌, map, find, ◌==◌, string_eq,
  if◌then◌else◌,
}
use talkertive_chat_app.Schema.{RoomMemberRole, Message, owner, member}
use talkertive_chat_app.World.{World, Clients}
use talkertive_chat_app.Rooms.Queries.{find_my_rooms, MyRoom as FoundRoom}
use talkertive_chat_app.MyRooms.{
  MyRoom, LastMessage, Payload, handle_room_list_updated, mark_room_as_read,
}

abbrev pub role_text : RoomMemberRole → String
role_text owner = "OWNER"
role_text member = "MEMBER"

abbrev pub last_message_of : Message → LastMessage
last_message_of m = record {
  id = m.id;
  content = m.content;
  created_at = m.created_at;
  sender_id = m.sender_id;
}

-- A room of `findMyRooms` as the client reads it.
abbrev pub listed : FoundRoom → MyRoom
listed x = record {
  id = x.room.id;
  name = x.room.name;
  my_role = Option.map role_text x.my_role;
  last_message = Option.map last_message_of x.last_message;
  unread_count = x.unread_count;
}

pub record Sidebar : Type 0 where
  pub rooms : List MyRoom
  pub selected_room : Option MyRoom
  pub pending_room_id : Option String

unfoldable pub handle_room_select : MyRoom → Sidebar → Sidebar
handle_room_select room s = record s {
  selected_room = some room;
  rooms = mark_room_as_read room.id s.rooms;
}

-- The effect on `pendingRoomId` and `rooms`: an empty identifier is none.
unfoldable pub select_pending : Sidebar → Sidebar
unfolding handle_room_select
select_pending s = elim s.pending_room_id [
  | none ↦ s
  | some id ↦ if id == "" then s else elim (find (λ r. r.id == id) s.rooms) [
    | none ↦ s
    | some room ↦ record (handle_room_select room s) { pending_room_id = none }
  ]
]

unfoldable pub on_room_list_updated : Option String → Payload → Sidebar → Sidebar
unfolding select_pending
on_room_list_updated current payload s =
    select_pending (record s { rooms = handle_room_list_updated current payload s.rooms })

abbrev pub on_back : Sidebar → Sidebar
on_back s = record s { selected_room = none }

module _ (p : Clients) where
  -- `fetchRooms`, with the subject of the session's token: without one the list stays.
  unfoldable pub fetch_rooms : Option String → World → List MyRoom → List MyRoom
  fetch_rooms none w rooms = rooms
  fetch_rooms (some u) w rooms = map listed (find_my_rooms p u w)

  unfoldable pub fetched : Option String → World → Sidebar → Sidebar
  unfolding select_pending fetch_rooms
  fetched subject w s = select_pending (record s { rooms = fetch_rooms subject w s.rooms })

  -- The effects of `isOpen`.
  unfoldable pub on_open_changed : Option String → World → Bool → Sidebar → Sidebar
  unfolding fetched
  on_open_changed subject w true s = fetched subject w s
  on_open_changed subject w false s = record s { selected_room = none }

  unfoldable pub handle_navigate_to_room : Option String → World → String → Sidebar → Sidebar
  unfolding fetched select_pending
  handle_navigate_to_room subject w room_id s =
      select_pending (record (fetched subject w s) { pending_room_id = some room_id })
