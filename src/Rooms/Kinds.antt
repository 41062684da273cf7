-- ===== src/Rooms/Kinds.antt =====
-- Tests of a room's type.
use talkertive_chat_app.Base.{Bool, true, false, not}
use talkertive_chat_app.Schema.{RoomType, direct, group}

abbrev pub is_direct : RoomType → Bool
is_direct direct = true
is_direct group = false

abbrev pub is_group : RoomType → Bool
is_group t = not (is_direct t)
