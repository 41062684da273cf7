-- ===== src/Chat/Reading.antt =====
-- What a reader of a room's messages is given, and how the state of reading moves.
use mathlib.Core.Option
use talkertive_chat_app.Base.{
  ℕ, ◌≤◌, String, ◌&&◌, ◌≡◌, refl, Option, some, List, map, length, In, In-map, length-map, arith,
  id_iff, is_some, ◌==◌, string_eq, if◌then◌else◌, inl, inr, Option-cases, pair_eq,
}
use talkertive_chat_app.Schema.{Message}
use talkertive_chat_app.World.{World, Clients, ok, is_ok}
use talkertive_chat_app.RoomMembers.{find_member}
use talkertive_chat_app.RoomMembers.Outcomes.{takes_part}
use talkertive_chat_app.Chat.{
  get_messages, mark_as_read, find_message, full_message, FullMessage, message_page, given_cursor,
  set_last_read,
}

module _ (p : Clients) where
  abbrev page_of : String → Option String → ℕ → World → List Message
  page_of room_id cursor count w =
      p.message.find_page (message_page p (given_cursor p cursor) count) (λ m. m.room_id == room_id)
        w.messages

  pub given-page :
      (user_id room_id : String) (cursor : Option String) (count : ℕ) (w : World)
      (l : List FullMessage)
      → (get_messages p user_id room_id cursor count w).0 ≡ ok l
      → l ≡ map (λ m. full_message p m w) (page_of room_id cursor count w)
  unfolding get_messages
  given-page user_id room_id cursor count w l h = ground arith

  page-stored :
      (room_id : String) (cursor : Option String) (count : ℕ) (w : World) (m : Message)
      → In m (page_of room_id cursor count w)
      → (find_message p m.id w ≡ some m) × (m.room_id ≡ room_id)
  page-stored room_id cursor count w m h =
      let q = λ (m : Message). m.room_id == room_id in
      let (found, here) =
        (p.message.In-find_many q w.messages m).0 (
          p.message.In-find_page (message_page p (given_cursor p cursor) count) q w.messages m h) in
      (found, (id_iff m.room_id room_id).0 here)

  -- The messages of a room are given exactly to those who take part in it: at most as many as were
  -- asked for, each a stored message of that room with its sender and attachments, and reading
  -- changes nothing.
  pub get_messages_lem :
      (user_id room_id : String) (cursor : Option String) (count : ℕ) (w : World)
      → let (res, w') = get_messages p user_id room_id cursor count w in
        (is_ok res ≡ takes_part p room_id user_id w)
        × (w' ≡ w)
        × ((l : List FullMessage)
            → res ≡ ok l
            → (length l ≤ count)
              × ((x : FullMessage)
                  → In x l
                  → (find_message p x.message.id w ≡ some x.message)
                    × (x.message.room_id ≡ room_id)
                    × (x ≡ full_message p x.message w)))
  unfolding get_messages
  get_messages_lem user_id room_id cursor count w = (
    ground arith,
    ground arith,
    λ l given.
        let given_by = given-page user_id room_id cursor count w l given in
        (
          rw (given_by, length-map (λ m. full_message p m w) (page_of room_id cursor count w))
              (p.message.length-find_page-le (message_page p (given_cursor p cursor) count)
                (λ m. m.room_id == room_id) w.messages count refl),
          λ x h.
              let (m, i, e) =
                In-map (λ m. full_message p m w) x (page_of room_id cursor count w)
                  (rw given_by at h) in
              let (found, here) = page-stored room_id cursor count w m i in
              rw (← e) (found, here, refl),
        ),
  )

  -- Marking a message as read succeeds exactly where the message exists, in whatever room, and the
  -- user has a row in the named room, even after leaving. The row then holds the time at which the
  -- message was sent, and no other row changes.
  pub mark_as_read_iff :
      (user_id room_id message_id r v : String) (w : World)
      → let (res, w') = mark_as_read p user_id room_id message_id w in
        (is_ok res
          ≡ (is_some (find_message p message_id w) && is_some (find_member p room_id user_id w)))
        × ((m : Message)
            → find_message p message_id w ≡ some m
            → find_member p r v w' ≡ (
                if room_id == r && user_id == v
                then Option.map (set_last_read m.created_at) (find_member p r v w)
                else find_member p r v w))
  unfolding mark_as_read
  mark_as_read_iff user_id room_id message_id r v w = (
    ground arith,
    λ m found. elim (Option-cases (find_member p room_id user_id w)) [
      | inl missing ↦ ground (arith, id_iff room_id r, id_iff user_id v)
      | inr (n, q) ↦ ground (
        arith,
        id_iff room_id r,
        id_iff user_id v,
        p.room_member.find-update (room_id, user_id) (set_last_read m.created_at) w.room_members
            (r, v) n q (p.room_member.find-key q),
      )
    ],
  )
