-- ===== src/MyRooms/Counts.antt =====
-- The counts of unread messages that a client keeps, against those that the backend would give it:
-- useMyRooms.ts with `room-list-updated` of the gateway and `findMyRooms`.
use talkertive_chat_app.Base.{
  ◌+◌, ◌≤◌, String, true, false, ◌&&◌, ◌≡◌, ap, ◌∙◌, sym, subst, some, List, In, In-map, In-sort,
  map, bit, arith, id_iff, is_none, ◌==◌, string_eq, if◌then◌else◌, descending,
}
use talkertive_chat_app.Schema.{Room, RoomMember, Message}
use talkertive_chat_app.World.{World, Clients, Fresh, ok}
use talkertive_chat_app.RoomMembers.{find_member}
use talkertive_chat_app.Rooms.Queries.{my_room, is_after}
use talkertive_chat_app.Chat.{
  SendMessageDto, FullMessage, send_message, new_message, mark_as_read, find_message,
}
use talkertive_chat_app.Chat.Sending.{send_message-message, send_message_lem}
use talkertive_chat_app.Chat.Ownership.{send_message-Keeps}
use talkertive_chat_app.Chat.Gateway.{RoomListPayload, payload_of}
use talkertive_chat_app.Chat.Unread.{own_row, send_message-unread, mark_as_read-unread}
use talkertive_chat_app.MyRooms.{
  MyRoom, Payload, handle_room_list_updated, mark_room_as_read, updated, last_time,
}

-- The payload as the client reads it: `sender.id` is the user that the message names.
abbrev pub heard : RoomListPayload → Payload
heard x = record {
  room_id = x.room_id;
  last_message = record {
    id = x.message.id;
    content = x.message.content;
    created_at = x.message.created_at;
    sender_id = x.message.sender_id;
  };
}

module _ (p : Clients) where
  -- The client's count for a room is the one that the backend gives.
  abbrev pub Agrees : String → World → MyRoom → Type 0
  Agrees v w r =
      (room : Room)
      → p.room.find_unique r.id w.rooms ≡ some room
      → r.unread_count ≡ (my_room p v w room).unread_count

  module _ (e : Fresh) (s : String) (d : SendMessageDto) (w : World) (x : FullMessage) (v : String)
      (m : RoomMember) where
    -- Where the counts of a client agree with those of the backend, and its user takes part in a
    -- room and has read no message as late: after a message is sent to the room, and the client has
    -- heard of it, its counts agree with those of the backend again, but that the backend counts the
    -- user's own message as unread in this room, and the client does not.
    pub handle_room_list_updated-counts :
        (rooms : List MyRoom)
        → (send_message p e s d w).0 ≡ ok x
        → find_member p d.room_id v w ≡ some m
        → is_none m.left_at ≡ true
        → is_after m.last_read_at (new_message e s d) ≡ true
        → ((r : MyRoom) → In r rooms → Agrees v w r)
        → (r : MyRoom) (room : Room)
        → In r (handle_room_list_updated (some v) (heard (payload_of p d.room_id x)) rooms)
        → let w' = (send_message p e s d w).1 in
          p.room.find_unique r.id w'.rooms ≡ some room
          → r.unread_count + bit (r.id == d.room_id && s == v) ≡ (my_room p v w' room).unread_count
    unfolding handle_room_list_updated
    handle_room_list_updated-counts rooms sent row active unread agree r room i stored =
        let payload = heard (payload_of p d.room_id x) in
        let w' = (send_message p e s d w).1 in
        let f = updated (some v) payload in
        let (old, j, same) =
          In-map f r rooms ((In-sort (descending last_time) (map f rooms) r).0 i) in
        let kept : w'.rooms ≡ w.rooms = ap (λ t. t.0) (send_message-Keeps p e s d w) in
        let id : old.id ≡ r.id = ground (arith, same) in
        let stored' : p.room.find_unique old.id w.rooms ≡ some room =
          ap (λ k. p.room.find_unique k w.rooms) id
          ∙ ap (p.room.find_unique r.id) (sym kept)
          ∙ stored in
        let name : room.id ≡ r.id = p.room.find-key stored in
        let message = send_message-message p e s d w x sent in
        let counted = send_message-unread p e s d w room v (ground arith) in
        let before = agree old j room stored' in
        let mine = own_row p d.room_id v w m row active in
        ground (
          arith,
          same,
          id,
          name,
          message,
          counted,
          before,
          mine,
          id_iff r.id d.room_id,
          id_iff d.room_id room.id,
          id_iff old.id d.room_id,
          id_iff s v,
        )

    -- Where the room whose panel is open is counted as read, and its newest message comes from
    -- somebody else: the client counts one unread message, although its panel at once marks the
    -- message as read, after which the backend counts none.
    pub open_room-miscounted :
        (rooms : List MyRoom) (room : Room)
        → (send_message p e s d w).0 ≡ ok x
        → (s == v) ≡ false
        → p.room.find_unique d.room_id w.rooms ≡ some room
        → find_member p d.room_id v w ≡ some m
        → is_none m.left_at ≡ true
        → ((y : Message)
            → find_message p y.id w ≡ some y
            → y.room_id ≡ d.room_id
            → is_none y.deleted_at ≡ true
            → y.created_at ≤ e.now)
        → (r : MyRoom)
        → In r (
            handle_room_list_updated
              (some v)
              (heard (payload_of p d.room_id x))
              (mark_room_as_read d.room_id rooms))
        → r.id ≡ d.room_id
        → let w' = (send_message p e s d w).1 in
          (r.unread_count ≡ 1)
          × ((my_room p v (mark_as_read p v d.room_id e.id w').1 room).unread_count ≡ 0)
    unfolding handle_room_list_updated mark_room_as_read
    open_room-miscounted rooms room sent other stored row active newest r i here =
        let f = updated (some v) (heard (payload_of p d.room_id x)) in
        let w' = (send_message p e s d w).1 in
        let read = λ (j : MyRoom). if j.id == d.room_id then record j { unread_count = 0 } else j in
        let (marked, j, same) =
          In-map f r (map read rooms)
            ((In-sort (descending last_time) (map f (map read rooms)) r).0 i) in
        let (old, k, zero) = In-map read marked rooms j in
        let message = send_message-message p e s d w x sent in
        let name : room.id ≡ d.room_id = p.room.find-key stored in
        let found = λ (id : String). (send_message_lem p e s id d w).2 (ground arith) in
        let members = ap (λ t. t.1) (send_message-Keeps p e s d w) in
        let row' : find_member p room.id v w' ≡ some m =
          ap (p.room_member.find_unique (room.id, v)) members
          ∙ ap (λ k. find_member p k v w) name
          ∙ row in
        let none_left =
          mark_as_read-unread p v room e.id w' m (new_message e s d) row' active
            (ground (arith, found e.id, id_iff e.id e.id))
            (λ y there its kept. ground (arith, found y.id, newest y, id_iff e.id y.id)) in
        (
          ground (
            arith,
            same,
            zero,
            message,
            id_iff old.id d.room_id,
            id_iff marked.id d.room_id,
            id_iff s v,
          ),
          subst (λ k. (my_room p v (mark_as_read p v k e.id w').1 room).unread_count ≡ 0) name
              none_left,
        )
