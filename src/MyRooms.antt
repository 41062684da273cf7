-- ===== src/MyRooms.antt =====
-- frontend/hooks/useMyRooms.ts: the list of rooms that a client keeps, and how an event changes it.
pub mod Updates
pub mod Counts
use mathlib.Core.Option
use talkertive_chat_app.Base.{
  ℕ, ◌+◌, String, Bool, true, false, Option, none, some, List, [], ◌∷◌, map, ◌==◌, string_eq,
  if◌then◌else◌, sort, descending,
}

-- `lastMessage`, its `createdAt` as a time.
pub record LastMessage : Type 0 where
  pub id : String
  pub content : Option String
  pub created_at : ℕ
  pub sender_id : String

-- `MyRoom`, of which an event changes the last message and the count.
pub record MyRoom : Type 0 where
  pub id : String
  pub name : Option String
  pub my_role : Option String
  pub last_message : Option LastMessage
  pub unread_count : ℕ

-- `RoomListUpdatedPayload`
pub record Payload : Type 0 where
  pub room_id : String
  pub last_message : LastMessage

abbrev pub is_user : Option String → String → Bool
is_user none id = false
is_user (some u) id = id == u

abbrev pub updated : Option String → Payload → MyRoom → MyRoom
updated current p r =
    if r.id == p.room_id
    then record r {
      last_message = some p.last_message;
      unread_count =
          if is_user current p.last_message.sender_id then r.unread_count else r.unread_count + 1;
    }
    else r

abbrev pub last_time : MyRoom → ℕ
last_time r = elim r.last_message [ none ↦ 0 | some m ↦ m.created_at ]

-- `handleRoomListUpdated`
unfoldable pub handle_room_list_updated : Option String → Payload → List MyRoom → List MyRoom
handle_room_list_updated current p rooms =
    sort (descending last_time) (map (updated current p) rooms)

-- `markRoomAsRead`
unfoldable pub mark_room_as_read : String → List MyRoom → List MyRoom
mark_room_as_read room_id rooms =
    map (λ r. if r.id == room_id then record r { unread_count = 0 } else r) rooms
