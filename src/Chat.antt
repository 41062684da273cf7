-- ===== src/Chat.antt =====
-- backend/src/chat/chat.service.ts, `ChatService`: messages and the state of reading.
pub mod Gateway
pub mod Names
pub mod Audience
pub mod Ownership
pub mod Unread
pub mod Messages
pub mod Reading
pub mod Paging
pub mod Delivery
pub mod Sending
use mathlib.Core.Option
use text.Mathlib.Text.{starts_with}
use talkertive_chat_app.Base.{
  ℕ, zero, suc, ◌+◌, String, Bool, true, false, not, ◌&&◌, Option, none, some, List, [], ◌∷◌, map,
  ◌==◌, string_eq, if◌then◌else◌, is_none, is_some, descending,
}
use talkertive_chat_app.Prisma.{Page}
use talkertive_chat_app.Schema.{Message, MessageAttachment, AttachmentType, image, file, RoomMember}
use talkertive_chat_app.World.{
  World, Clients, Fresh, UserSummary, Action, pure, throw, gets, transaction, ◌>>=◌, ◌>>◌, throw_if,
  not_found, forbidden, create_message, update_message, create_attachment, update_member,
}
use talkertive_chat_app.RoomMembers.{find_member, is_gone, is_active_in, holds_owner}
use talkertive_chat_app.Rooms.Queries.{summary_of}

pub record AttachmentDto : Type 0 where
  pub url : String
  pub name : String
  pub size : ℕ
  pub mime_type : String

pub record SendMessageDto : Type 0 where
  pub room_id : String
  pub content : Option String
  pub attachments : Option (List AttachmentDto)

-- A message with what `include` adds.
pub record FullMessage : Type 0 where
  pub message : Message
  pub sender : Option UserSummary
  pub attachments : List MessageAttachment

abbrev pub new_message : Fresh → String → SendMessageDto → Message
new_message e sender_id d = record {
  id = e.id;
  room_id = d.room_id;
  sender_id = sender_id;
  content = d.content;
  is_edited = false;
  deleted_at = none;
  created_at = e.now;
}

-- `mimeType.startsWith('image/') ? 'IMAGE' : 'FILE'`
abbrev pub attachment_type : String → AttachmentType
attachment_type mime = if starts_with mime "image/" then image else file

abbrev pub new_attachment : Fresh → String → ℕ → AttachmentDto → MessageAttachment
new_attachment e message_id n a = record {
  id = e.child_id n;
  message_id = message_id;
  type = attachment_type a.mime_type;
  url = a.url;
  name = a.name;
  size = a.size;
  mime_type = a.mime_type;
}

abbrev pub given : Option (List AttachmentDto) → List AttachmentDto
given none = []
given (some l) = l

abbrev pub edit : String → Message → Message
edit content m = record m { content = some content; is_edited = true }

abbrev pub soft_delete : ℕ → Message → Message
soft_delete now m = record m { deleted_at = some now }

abbrev pub set_last_read : ℕ → RoomMember → RoomMember
set_last_read t m = record m { last_read_at = some t }

-- `!message || message.deletedAt !== null`
abbrev pub is_deleted : Option Message → Bool
is_deleted none = true
is_deleted (some m) = is_some m.deleted_at

abbrev pub is_sent_by : String → Option Message → Bool
is_sent_by user_id none = false
is_sent_by user_id (some m) = m.sender_id == user_id

module _ (p : Clients) where
  abbrev pub find_message : String → World → Option Message
  find_message id w = p.message.find_unique id w.messages

  abbrev pub sender_of : World → Message → Option UserSummary
  sender_of w m = Option.map summary_of (p.user.find_unique m.sender_id w.users)

  abbrev pub attachments_of : World → Message → List MessageAttachment
  attachments_of w m = p.attachment.find_many (λ a. a.message_id == m.id) w.attachments

  abbrev pub full_message : Message → World → FullMessage
  full_message m w = record {
    message = m;
    sender = sender_of w m;
    attachments = attachments_of w m;
  }

  -- What `include: { sender }` alone gives: no attachments, whatever the table holds.
  abbrev pub edited_message : Message → World → FullMessage
  edited_message m w = record (full_message m w) { attachments = [] }

  unfoldable pub assert_active_member : String → String → Action (Unit {0})
  assert_active_member user_id room_id = do
    m ← gets (find_member p room_id user_id)
    throw_if (is_gone m) (forbidden "채팅방에 접근 권한이 없습니다.")

  -- The nested `attachments: { create: […] }`, in the order of the list.
  unfoldable pub create_attachments : Fresh → String → ℕ → List AttachmentDto → Action (Unit {0})
  create_attachments e message_id n [] = pure tt
  create_attachments e message_id n (a ∷ rest) =
      create_attachment p (new_attachment e message_id n a)
      >> create_attachments e message_id (n + 1) rest

  -- `message.create` with what is nested in it: one write.
  unfoldable pub store_message : Fresh → String → SendMessageDto → Action Message
  unfolding create_message
  store_message e sender_id d = transaction (do
    m ← create_message p (new_message e sender_id d)
    create_attachments e m.id 0 (given d.attachments)
    pure m)

  unfoldable pub send_message : Fresh → String → SendMessageDto → Action FullMessage
  unfolding assert_active_member
  send_message e sender_id d = do
    assert_active_member sender_id d.room_id
    message ← store_message e sender_id d
    gets (full_message message)

  unfoldable pub edit_message : String → String → String → Action FullMessage
  unfolding update_message
  edit_message user_id message_id content = do
    message ← gets (find_message message_id)
    throw_if (is_deleted message) (not_found "메시지를 찾을 수 없습니다.")
    throw_if (not (is_sent_by user_id message)) (forbidden "본인이 보낸 메시지만 수정할 수 있습니다.")
    updated ← update_message p message_id (edit content)
    gets (edited_message updated)

  -- The member whose role is asked for: that of the requester in the message's room.
  abbrev pub member_at : String → Option Message → World → Option RoomMember
  member_at user_id none w = none
  member_at user_id (some m) w = find_member p m.room_id user_id w

  unfoldable pub delete_message : Fresh → String → String → Action Message
  unfolding update_message
  delete_message e user_id message_id = do
    message ← gets (find_message message_id)
    throw_if (is_deleted message) (not_found "메시지를 찾을 수 없습니다.")
    m ← gets (member_at user_id message)
    throw_if (not (is_sent_by user_id message) && not (holds_owner m))
        (forbidden "본인 메시지 또는 방장만 삭제할 수 있습니다.")
    update_message p message_id (soft_delete e.now)

  unfoldable pub mark_as_read : String → String → String → Action RoomMember
  unfolding update_member
  mark_as_read user_id room_id last_message_id w = elim (find_message last_message_id w) [
    | none ↦ throw (not_found "메시지를 찾을 수 없습니다.") w
    | some m ↦ update_member p room_id user_id (set_last_read m.created_at) w
  ]

  abbrev pub message_page : Option String → ℕ → Page Message String
  message_page cursor count = record {
    order = descending (λ (m : Message). m.created_at);
    skip = elim cursor [ none ↦ 0 | some _ ↦ 1 ];
    take = some count;
    cursor = cursor;
  }

  -- `...(cursor && { cursor: { id: cursor }, skip: 1 })`: an empty text is no cursor.
  abbrev pub given_cursor : Option String → Option String
  given_cursor none = none
  given_cursor (some c) = if c == "" then none else some c

  unfoldable pub get_messages : String → String → Option String → ℕ → Action (List FullMessage)
  unfolding assert_active_member
  get_messages user_id room_id cursor count = do
    assert_active_member user_id room_id
    gets (λ w.
        map (λ m. full_message m w)
          (p.message.find_page (message_page (given_cursor cursor) count)
            (λ m. m.room_id == room_id) w.messages))

  unfoldable pub get_active_member_ids : String → World → List String
  get_active_member_ids room_id w =
      map (λ m. m.user_id) (p.room_member.find_many (is_active_in room_id) w.room_members)
