-- ===== src/World/Tables.antt =====
-- The writes of the services, `prisma.<model>.create`, `.update` and `.delete`: the client's checks
-- and errors, and the cascades that schema.prisma declares.
use talkertive_chat_app.Base.{
  ℕ, leb, true, Option, String, Bool, false, none, some, List, Eq, ◌==◌, string_eq, if◌then◌else◌,
  pair_eq, is_some, ◌&&◌,
}
use talkertive_chat_app.Prisma.{Delegate}
use talkertive_chat_app.Schema.{
  User, Room, RoomSchedule, RoomMember, Message, MessageAttachment, Banner,
}
use talkertive_chat_app.World.State.{World, Clients}
use talkertive_chat_app.World.Monad.{Action, Result, ok, err, known_request, throw}

-- A column of type `Int` takes 32-bit integers, and Prisma refuses a write of any other.
abbrev pub fits_int : Option ℕ → Bool
fits_int none = true
fits_int (some n) = leb n 2_147_483_647

module _ {Row Key : Type 0} ⦃e : Eq Key⦄ {key : Row → Key} (d : Delegate key) where
  -- A unique constraint that fails is error P2002, a row that is missing is P2025, and a foreign key
  -- that finds no row is P2003.
  abbrev pub create_in : Row → List Row → Result Row × List Row
  create_in r t = if d.admits r t then (ok r, d.create r t) else (err (known_request "P2002"), t)

  abbrev pub update_in : Key → (Row → Row) → List Row → Result Row × List Row
  update_in k f t = elim (d.find_unique k t) [
    | none ↦ (err (known_request "P2025"), t)
    | some r ↦ (ok (f r), d.update k f t)
  ]

  abbrev pub delete_in : Key → List Row → Result Row × List Row
  delete_in k t = elim (d.find_unique k t) [
    | none ↦ (err (known_request "P2025"), t)
    | some r ↦ (ok r, d.delete k t)
  ]

module _ (p : Clients) where
  unfoldable pub create_member : RoomMember → Action RoomMember
  create_member m w =
      let (r, t) = create_in p.room_member m w.room_members in
      if is_some (p.user.find_unique m.user_id w.users)
        && is_some (p.room.find_unique m.room_id w.rooms)
      then (r, record w { room_members = t })
      else throw (known_request "P2003") w

  unfoldable pub update_member : String → String → (RoomMember → RoomMember) → Action RoomMember
  update_member room_id user_id f w =
      let (r, t) = update_in p.room_member (room_id, user_id) f w.room_members in
      (r, record w { room_members = t })

  unfoldable pub update_user : String → (User → User) → Action User
  update_user id f w = let (r, t) = update_in p.user id f w.users in (r, record w { users = t })

  unfoldable pub create_room : Room → Action Room
  create_room room w = let (r, t) = create_in p.room room w.rooms in (r, record w { rooms = t })

  unfoldable pub update_room : String → (Room → Room) → Action Room
  update_room id f w = let (r, t) = update_in p.room id f w.rooms in (r, record w { rooms = t })

  unfoldable pub create_schedule_row : RoomSchedule → Action RoomSchedule
  create_schedule_row s w =
      let (r, t) = create_in p.schedule s w.schedules in
      if is_some (p.room.find_unique s.room_id w.rooms)
      then (r, record w { schedules = t })
      else throw (known_request "P2003") w

  unfoldable pub update_schedule_row : String → (RoomSchedule → RoomSchedule) → Action RoomSchedule
  update_schedule_row id f w =
      let (r, t) = update_in p.schedule id f w.schedules in (r, record w { schedules = t })

  unfoldable pub delete_schedule_row : String → Action RoomSchedule
  delete_schedule_row id w =
      let (r, t) = delete_in p.schedule id w.schedules in (r, record w { schedules = t })

  unfoldable pub create_message : Message → Action Message
  create_message m w =
      let (r, t) = create_in p.message m w.messages in
      if is_some (p.user.find_unique m.sender_id w.users)
        && is_some (p.room.find_unique m.room_id w.rooms)
      then (r, record w { messages = t })
      else throw (known_request "P2003") w

  unfoldable pub create_attachment : MessageAttachment → Action MessageAttachment
  create_attachment a w =
      let (r, t) = create_in p.attachment a w.attachments in
      if is_some (p.message.find_unique a.message_id w.messages)
      then (if fits_int (some a.size)
          then (r, record w { attachments = t })
          else throw (known_request "P2020") w)
      else throw (known_request "P2003") w

  unfoldable pub update_message : String → (Message → Message) → Action Message
  update_message id f w =
      let (r, t) = update_in p.message id f w.messages in (r, record w { messages = t })

  unfoldable pub create_banner : Banner → Action Banner
  create_banner b w = let (r, t) = create_in p.banner b w.banners in (r, record w { banners = t })

  unfoldable pub update_banner_row : String → (Banner → Banner) → Action Banner
  update_banner_row id f w =
      let (r, t) = update_in p.banner id f w.banners in (r, record w { banners = t })

  unfoldable pub delete_banner_row : String → Action Banner
  delete_banner_row id w =
      let (r, t) = delete_in p.banner id w.banners in (r, record w { banners = t })

  -- Whether the message that an attachment hangs on meets a condition.
  abbrev pub on_message : (Message → Bool) → World → MessageAttachment → Bool
  on_message q w a = elim (p.message.find_unique a.message_id w.messages) [
    | none ↦ false
    | some m ↦ q m
  ]

  abbrev pub of_room : String → Message → Bool
  of_room room_id m = m.room_id == room_id

  abbrev pub of_sender : String → Message → Bool
  of_sender user_id m = m.sender_id == user_id

  -- `room.delete`: `onDelete: Cascade` takes the members, messages, likes and schedules of the
  -- room along, and the attachments of the messages.
  unfoldable pub delete_room_row : String → Action Room
  delete_room_row room_id w = elim (p.room.find_unique room_id w.rooms) [
    | none ↦ throw (known_request "P2025") w
    | some room ↦ (
      ok room,
      record w {
        rooms = p.room.delete room_id w.rooms;
        schedules = p.schedule.delete_many (λ s. s.room_id == room_id) w.schedules;
        likes = p.like.delete_many (λ l. l.room_id == room_id) w.likes;
        room_members = p.room_member.delete_many (λ m. m.room_id == room_id) w.room_members;
        messages = p.message.delete_many (of_room room_id) w.messages;
        attachments = p.attachment.delete_many (on_message (of_room room_id) w) w.attachments;
      },
    )
  ]

  -- `message.deleteMany({ where: { senderId } })`, with the attachments of those messages.
  unfoldable pub delete_messages_of : String → Action (Unit {0})
  delete_messages_of user_id w = (
    ok tt,
    record w {
      messages = p.message.delete_many (of_sender user_id) w.messages;
      attachments = p.attachment.delete_many (on_message (of_sender user_id) w) w.attachments;
    },
  )

  -- `user.delete`: the member and like rows of the user go along; a message of the user that is
  -- still there refuses it, since `Message.sender` has no cascade.
  unfoldable pub delete_user_row : String → Action User
  delete_user_row user_id w = elim (p.user.find_unique user_id w.users) [
    | none ↦ throw (known_request "P2025") w
    | some user ↦ elim (p.message.find_many (of_sender user_id) w.messages) [
      | List.[] ↦ (
        ok user,
        record w {
          users = p.user.delete user_id w.users;
          likes = p.like.delete_many (λ l. l.user_id == user_id) w.likes;
          room_members = p.room_member.delete_many (λ m. m.user_id == user_id) w.room_members;
        },
      )
      | List.◌∷◌ m ms ↦ throw (known_request "P2003") w
    ]
  ]
