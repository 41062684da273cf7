-- ===== src/Chat/Unread.antt =====
-- How many messages of a room a user has not read, as `findMyRooms` counts them, and what sending
-- and reading do to this count.
use talkertive_chat_app.Base.{
  ◌+◌, ◌≤◌, String, Bool, true, false, ◌&&◌, ◌≡◌, refl, ap, ◌∙◌, sym, Option, some, List, find,
  In-find, find-In, List-cases, length, bit, arith, id_iff, is_none, ◌==◌, string_eq, inl, inr,
  pair_eq, Bool-cases,
}
use talkertive_chat_app.Schema.{Room, RoomMember, Message}
use talkertive_chat_app.World.{World, Clients, Fresh, is_ok}
use talkertive_chat_app.World.Keeps.{Result-cases}
use talkertive_chat_app.RoomMembers.{find_member, is_active_in}
use talkertive_chat_app.Rooms.Queries.{
  my_room, unread_of, last_read_of, active_members_of, is_after,
}
use talkertive_chat_app.Chat.{
  SendMessageDto, send_message, store_message, new_message, mark_as_read, set_last_read,
  find_message,
}
use talkertive_chat_app.Chat.Sending.{store_message_writes}
use talkertive_chat_app.Chat.Ownership.{send_message-Keeps}

module _ (p : Clients) where
  abbrev pub own : String → String → World → Option RoomMember
  own r v w = find (λ m. m.user_id == v) (active_members_of p r w)

  -- Among the members of a room that take part, users find their own row.
  pub own_row :
      (r v : String) (w : World) (m : RoomMember)
      → find_member p r v w ≡ some m
      → is_none m.left_at ≡ true
      → own r v w ≡ some m
  own_row r v w m q active =
      let at = p.room_member.find-key q in
      let room : m.room_id ≡ r = ap (λ (k : String × String). k.0) at in
      let user : m.user_id ≡ v = ap (λ (k : String × String). k.1) at in
      let by = λ (x : RoomMember). p.room_member.In-find_many (is_active_in r) w.room_members x in
      let stored : p.room_member.find_unique (m.room_id, m.user_id) w.room_members ≡ some m =
        ap (λ k. p.room_member.find_unique k w.room_members) at ∙ q in
      let here = (by m).1 (stored, ground (arith, id_iff m.room_id r)) in
      let (x, found) =
        In-find (λ m. m.user_id == v) m (active_members_of p r w) here
          ((id_iff m.user_id v).1 user) in
      let (i, name) = find-In (λ m. m.user_id == v) x (active_members_of p r w) found in
      let (row, active') = (by x).0 i in
      let room' : x.room_id ≡ r = ground (arith, id_iff x.room_id r) in
      let user' : x.user_id ≡ v = (id_iff x.user_id v).0 name in
      found
      ∙ sym row
      ∙ ap (λ a. find_member p a x.user_id w) room'
      ∙ ap (λ b. find_member p r b w) user'
      ∙ q

  send_message-count :
      (e : Fresh) (s : String) (d : SendMessageDto) (w : World) (q : Message → Bool)
      → let (res, w') = send_message p e s d w in
        is_ok res ≡ true
        → p.message.count q w'.messages ≡ p.message.count q w.messages + bit (q (new_message e s d))
  unfolding send_message
  send_message-count e s d w q done = elim (store_message_writes p e s d w) [
    | inl (failed, same) ↦ elim (Result-cases (store_message p e s d w).0) [
      | inl (x, stored) ↦ absurd (ground arith)
      | inr (x, refused) ↦ absurd (ground arith)
    ]
    | inr (stored, admitted, written) ↦
        ground (arith, p.message.count-create q (new_message e s d) w.messages admitted)
  ]

  -- A message that is sent counts for one in its room, for whoever takes part, the sender too, and
  -- has read no message as late.
  pub send_message-unread :
      (e : Fresh) (s : String) (d : SendMessageDto) (w : World) (room : Room) (v : String)
      → let (res, w') = send_message p e s d w in
        is_ok res ≡ true
        → (my_room p v w' room).unread_count
          ≡ (my_room p v w room).unread_count
            + bit (
                d.room_id == room.id
                && is_after (last_read_of (own room.id v w)) (new_message e s d))
  send_message-unread e s d w room v done =
      let w' = (send_message p e s d w).1 in
      let members : w'.room_members ≡ w.room_members =
        ap (λ t. t.1) (send_message-Keeps p e s d w) in
      let row : own room.id v w' ≡ own room.id v w =
        ap (λ t. find (λ m. m.user_id == v) (p.room_member.find_many (is_active_in room.id) t))
          members in
      let q = λ (m : Message).
        m.room_id == room.id
        && is_none m.deleted_at
        && is_after (last_read_of (own room.id v w)) m in
      ap (λ m. unread_of p room.id (last_read_of m) w') row
      ∙ send_message-count e s d w q done
      ∙ ground arith

  count-zero :
      (q : Message → Bool) (t : List Message)
      → ((m : Message) → p.message.find_unique m.id t ≡ some m → q m ≡ false)
      → p.message.count q t ≡ 0
  count-zero q t nothing = elim (List-cases (p.message.find_many q t)) [
    | inl empty ↦ p.message.count_lem q t ∙ ap length empty
    | inr (m, l, e) ↦
        let (stored, good) = (p.message.In-find_many q t m).0 (rw e (inl refl)) in
        absurd (ground (arith, nothing m stored))
  ]

  -- Whoever takes part in a room and marks its newest message as read has nothing unread in it.
  pub mark_as_read-unread :
      (v : String) (room : Room) (id : String) (w : World) (m : RoomMember) (x : Message)
      → find_member p room.id v w ≡ some m
      → is_none m.left_at ≡ true
      → find_message p id w ≡ some x
      → ((y : Message)
          → find_message p y.id w ≡ some y
          → y.room_id ≡ room.id
          → is_none y.deleted_at ≡ true
          → y.created_at ≤ x.created_at)
      → let w' = (mark_as_read p v room.id id w).1 in (my_room p v w' room).unread_count ≡ 0
  unfolding mark_as_read
  mark_as_read-unread v room id w m x row active found newest =
      let w' = (mark_as_read p v room.id id w).1 in
      let written : find_member p room.id v w' ≡ some (set_last_read x.created_at m) = ground (
        arith,
        id_iff room.id room.id,
        id_iff v v,
        p.room_member.find-update (room.id, v) (set_last_read x.created_at) w.room_members
            (room.id, v) m row (p.room_member.find-key row),
      ) in
      let mine = own_row room.id v w' (set_last_read x.created_at m) written active in
      let same : w'.messages ≡ w.messages = ground arith in
      let q = λ (y : Message).
        y.room_id == room.id && is_none y.deleted_at && is_after (some x.created_at) y in
      ap (λ m. unread_of p room.id (last_read_of m) w') mine
      ∙ ap (λ t. p.message.count q t) same
      ∙ count-zero q w.messages (λ y stored. elim (Bool-cases (q y)) [
        | inl good ↦ absurd (ground (arith, newest y stored, id_iff y.room_id room.id))
        | inr bad ↦ bad
      ])
