-- ===== src/Chat/Gateway.antt =====
-- backend/src/chat/chat.gateway.ts, `ChatGateway`, and backend/src/chat/ws-jwt.guard.ts,
-- `WsJwtGuard`. Socket.io is only called: what the gateway does with it is the list of its calls,
-- the latest first. `verify` is `JwtService.verify` with the secret: the subject of a token, or
-- none where it throws.
use text.Mathlib.Text.{starts_with}
use Prim.Native.String.{slice, len}
use talkertive_chat_app.Base.{
  String, Bool, Option, none, some, List, [], ◌∷◌, ◌==◌, string_eq, if◌then◌else◌,
}
use talkertive_chat_app.Schema.{Message}
use talkertive_chat_app.World.{
  World, Clients, Fresh, UserSummary, Result, ok, err, ws_exception, Action,
}
use talkertive_chat_app.Media.{◌+++◌}
use talkertive_chat_app.Chat.{
  SendMessageDto, FullMessage, send_message, edit_message, delete_message, mark_as_read,
  get_messages, get_active_member_ids,
}

-- A socket with its handshake.
pub record Socket : Type 0 where
  pub id : String
  pub auth_token : Option String
  pub authorization : Option String

-- `room-list-updated`
pub record RoomListPayload : Type 0 where
  pub room_id : String
  pub message : Message
  pub sender : Option UserSummary

pub data ServerEvent : Type 0 where
  new_message message_edited : FullMessage → ServerEvent
  message_deleted : String → String → ServerEvent
  message_read : String → String → String → ServerEvent
  user_typing : String → Bool → ServerEvent
  room_list_updated : RoomListPayload → ServerEvent

-- `client.join`, `client.leave`, `client.disconnect`, `server.to(room).emit` and
-- `client.to(room).emit`, which spares the client.
pub data Call : Type 0 where
  join leave : String → String → Call
  disconnect : String → Call
  emit : String → ServerEvent → Call
  emit_from : String → String → ServerEvent → Call

-- What the handler answers to the client.
pub data Reply : Type 0 where
  room_joined : List FullMessage → Reply
  room_left : Reply
  message_sent message_edit_success : FullMessage → Reply
  message_delete_success read_success no_reply : Reply

pub data ClientEvent : Type 0 where
  join_room leave_room : String → ClientEvent
  send : SendMessageDto → ClientEvent
  edit : String → String → ClientEvent
  delete : String → ClientEvent
  read : String → String → ClientEvent
  typing : String → Bool → ClientEvent

pub record Server : Type 0 where
  pub world : World
  pub calls : List Call

abbrev pub Handler : Type 0 → Type 0
Handler A = Server → Result A × Server

infixl 5 ◌>>=◌ ◌>>◌
abbrev pub ◌>>=◌ : {A B : Type 0} → Handler A → (A → Handler B) → Handler B
◌>>=◌ m f s = let (r, s') = m s in elim r [ ok a ↦ f a s' | err e ↦ (err e, s') ]

abbrev pub ◌>>◌ : {A B : Type 0} → Handler A → Handler B → Handler B
m >> k = m >>= λ _. k

module _ {A : Type 0} where
  abbrev pub reply : A → Handler A
  reply a s = (ok a, s)

  -- A call of `ChatService`.
  abbrev pub service : Action A → Handler A
  service m s = let (r, w) = m s.world in (r, record s { world = w })

  abbrev pub query : (World → A) → Handler A
  query f s = (ok (f s.world), s)

abbrev pub call : Call → Handler (Unit {0})
call c s = (ok tt, record s { calls = c ∷ s.calls })

abbrev pub room_channel : String → String
room_channel room_id = "room:" +++ room_id

abbrev pub user_channel : String → String
user_channel user_id = "user:" +++ user_id

-- A token that is not the empty text.
abbrev pub present : Option String → Option String
present none = none
present (some t) = if t == "" then none else some t

-- `authorization?.slice(7)`, over the bytes of a header.
abbrev pub after_seven : Option String → Option String
after_seven none = none
after_seven (some h) = some (slice h 7 (len h))

-- `authHeader?.startsWith('Bearer ')`
abbrev pub bearer : Option String → Option String
bearer none = none
bearer (some h) = if starts_with h "Bearer " then some (slice h 7 (len h)) else none

abbrev pub or_else : Option String → Option String → Option String
or_else none b = b
or_else (some a) b = some a

module _ (verify : String → Option String) where
  abbrev pub subject : Option String → Option String
  subject none = none
  subject (some t) = verify t

  -- `WsJwtGuard.extractToken` and `canActivate`
  unfoldable pub extract_token : Socket → Option String
  extract_token c = or_else (present c.auth_token) (bearer c.authorization)

  unfoldable pub can_activate : Socket → Result String
  unfolding extract_token
  can_activate c = elim (present (extract_token c)) [
    | none ↦ err (ws_exception "인증 토큰이 없습니다.")
    | some t ↦ elim (verify t) [ none ↦ err (ws_exception "유효하지 않은 토큰입니다.") | some sub ↦ ok sub ]
  ]

  -- `handleConnection`, which no guard precedes.
  unfoldable pub handle_connection : Socket → Handler (Unit {0})
  handle_connection c =
      elim (subject (present (or_else (present c.auth_token) (after_seven c.authorization)))) [
        | none ↦ call (disconnect c.id)
        | some sub ↦ call (join c.id (user_channel sub))
      ]

module _ (p : Clients) where
  unfoldable pub handle_join_room : Socket → String → String → Handler Reply
  handle_join_room c user_id room_id = do
    call (join c.id (room_channel room_id))
    messages ← service (get_messages p user_id room_id none 50)
    reply (room_joined messages)

  unfoldable pub handle_leave_room : Socket → String → Handler Reply
  handle_leave_room c room_id = do call (leave c.id (room_channel room_id)); reply room_left

  -- `for (const memberId of memberIds) server.to(`user:${memberId}`).emit(…)`
  unfoldable pub notify_all : List String → RoomListPayload → Handler (Unit {0})
  notify_all [] payload = reply tt
  notify_all (id ∷ ids) payload =
      call (emit (user_channel id) (room_list_updated payload)) >> notify_all ids payload

  abbrev pub payload_of : String → FullMessage → RoomListPayload
  payload_of room_id m = record { room_id = room_id; message = m.message; sender = m.sender }

  unfoldable pub handle_send_message : Fresh → String → SendMessageDto → Handler Reply
  handle_send_message e user_id d = do
    message ← service (send_message p e user_id d)
    call (emit (room_channel d.room_id) (new_message message))
    member_ids ← query (get_active_member_ids p d.room_id)
    notify_all member_ids (payload_of d.room_id message)
    reply (message_sent message)

  unfoldable pub handle_edit_message : String → String → String → Handler Reply
  handle_edit_message user_id message_id content = do
    message ← service (edit_message p user_id message_id content)
    call (emit (room_channel message.message.room_id) (message_edited message))
    reply (message_edit_success message)

  unfoldable pub handle_delete_message : Fresh → String → String → Handler Reply
  handle_delete_message e user_id message_id = do
    message ← service (delete_message p e user_id message_id)
    call (emit (room_channel message.room_id) (message_deleted message.id message.room_id))
    reply message_delete_success

  unfoldable pub handle_read_message : Socket → String → String → String → Handler Reply
  handle_read_message c user_id room_id last_message_id = do
    service (mark_as_read p user_id room_id last_message_id)
    call (emit_from c.id (room_channel room_id) (message_read user_id room_id last_message_id))
    reply read_success

  unfoldable pub handle_typing : Socket → String → String → Bool → Handler Reply
  handle_typing c user_id room_id is_typing = do
    call (emit_from c.id (room_channel room_id) (user_typing user_id is_typing))
    reply no_reply

  unfoldable pub dispatch : Fresh → Socket → String → ClientEvent → Handler Reply
  dispatch e c user_id (join_room room_id) = handle_join_room c user_id room_id
  dispatch e c user_id (leave_room room_id) = handle_leave_room c room_id
  dispatch e c user_id (send d) = handle_send_message e user_id d
  dispatch e c user_id (edit message_id content) = handle_edit_message user_id message_id content
  dispatch e c user_id (delete message_id) = handle_delete_message e user_id message_id
  dispatch e c user_id (read room_id message_id) = handle_read_message c user_id room_id message_id
  dispatch e c user_id (typing room_id is_typing) = handle_typing c user_id room_id is_typing

  -- An event passes the guard, whose subject the handler reads from `client.data.user`.
  unfoldable pub handle_event :
      (String → Option String) → Fresh → Socket → ClientEvent → Handler Reply
  unfolding can_activate
  handle_event verify e c event s = elim (can_activate verify c) [
    | err x ↦ (err x, s)
    | ok user_id ↦ dispatch e c user_id event s
  ]
