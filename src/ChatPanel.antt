-- ===== src/ChatPanel.antt =====
-- frontend/components/ChatPanel.tsx: the panel of one room, its state and what changes it: the
-- events of the server, the user's actions and the timers. A timer is the time at which it fires.
-- The drawing and the scrolling are left out; the requests over HTTP are in DirectChat and Uploads.
pub mod Sync
pub mod Channels
pub mod Effects
pub mod Rewrites
pub mod Handlers
pub mod Order
pub mod Attachments
pub mod Traffic
pub mod Joining
pub mod Happenings
pub mod Typing
pub mod OwnTyping
pub mod DirectChat
pub mod Uploads
use talkertive_chat_app.Base.{
  ℕ, ◌+◌, String, Bool, true, false, not, ◌&&◌, ◌||◌, Option, none, some, List, [], ◌∷◌, ◌++◌, map,
  filter, leb, ◌==◌, string_eq, if◌then◌else◌, is_some,
}
use talkertive_chat_app.Base.Text.{trim}
use mathlib.Core.List.{reverse}
use talkertive_chat_app.Schema.{Message}
use talkertive_chat_app.Chat.{FullMessage, SendMessageDto}
use talkertive_chat_app.Chat.Gateway.{
  ClientEvent, join_room, send, edit, delete, read, typing, ServerEvent, new_message,
  message_edited, message_deleted, message_read, user_typing, room_list_updated, Call, join, leave,
  disconnect, emit, emit_from, room_channel,
}

abbrev pub typing_timeout_ms : ℕ
typing_timeout_ms = 3_000

abbrev pub typing_debounce_ms : ℕ
typing_debounce_ms = 2_000

pub record Panel : Type 0 where
  pub messages : List FullMessage
  pub input : String
  pub editing_id : Option String
  pub edit_content : String
  pub typing_user_ids : List String
  -- `typingTimeoutsRef`: for a user, the time at which the timeout fires
  pub typing_timeouts : List (String × ℕ)
  -- `isTypingRef` and `typingDebounceRef`
  pub is_typing : Bool
  pub typing_debounce : Option ℕ
  -- `socketRef.current !== null`
  pub has_socket : Bool
  pub is_connected : Bool
  -- what `socket.emit` has sent, the latest first
  pub sent : List ClientEvent

-- `socketRef.current?.emit(…)`
abbrev pub emitting : ClientEvent → Panel → Panel
emitting e p = if p.has_socket then record p { sent = e ∷ p.sent } else p

-- `xs.includes(x)`
abbrev pub includes : List String → String → Bool
includes [] x = false
includes (y ∷ ys) x = y == x || includes ys x

abbrev pub without : String → List String → List String
without x xs = filter (λ y. not (y == x)) xs

-- `Map.delete`; a `Map.set` puts a new entry in its place.
abbrev pub without_timeout : String → List (String × ℕ) → List (String × ℕ)
without_timeout x ts = filter (λ t. not (t.0 == x)) ts

abbrev pub last? : List FullMessage → Option FullMessage
last? [] = none
last? (m ∷ []) = some m
last? (m ∷ (x ∷ xs)) = last? (x ∷ xs)

abbrev pub replace_message : FullMessage → FullMessage → FullMessage
replace_message new m = if m.message.id == new.message.id then new else m

abbrev pub mark_deleted : ℕ → String → FullMessage → FullMessage
mark_deleted now id m =
    if m.message.id == id
    then record m { message = record m.message { deleted_at = some now } }
    else m

module _ (room_id : String) where
  unfoldable pub on_connect : Panel → Panel
  on_connect p = emitting (join_room room_id) (record p { is_connected = true })

  unfoldable pub on_disconnect : Panel → Panel
  on_disconnect p = record p { is_connected = false }

  abbrev pub emitting_read : Option FullMessage → Panel → Panel
  emitting_read none p = p
  emitting_read (some m) p = emitting (read room_id m.message.id) p

  unfoldable pub on_room_joined : List FullMessage → Panel → Panel
  on_room_joined msgs p =
      let sorted = reverse msgs in emitting_read (last? sorted) (record p { messages = sorted })

  unfoldable pub on_new_message : FullMessage → Panel → Panel
  on_new_message msg p =
      emitting (read room_id msg.message.id) (record p { messages = p.messages ++ msg ∷ [] })

  unfoldable pub on_message_edited : FullMessage → Panel → Panel
  on_message_edited msg p = record p { messages = map (replace_message msg) p.messages }

  unfoldable pub on_message_deleted : ℕ → String → Panel → Panel
  on_message_deleted now message_id p = record p {
    messages = map (mark_deleted now message_id) p.messages;
  }

  unfoldable pub on_user_typing : ℕ → String → Bool → Panel → Panel
  on_user_typing now user_id true p = record p {
    typing_user_ids =
        if includes p.typing_user_ids user_id
        then p.typing_user_ids
        else p.typing_user_ids ++ user_id ∷ [];
    typing_timeouts =
        (user_id, now + typing_timeout_ms) ∷ without_timeout user_id p.typing_timeouts;
  }
  on_user_typing now user_id false p = record p {
    typing_user_ids = without user_id p.typing_user_ids;
    typing_timeouts = without_timeout user_id p.typing_timeouts;
  }

  -- The events that the panel listens to.
  unfoldable pub on_event : ℕ → ServerEvent → Panel → Panel
  unfolding on_new_message on_message_edited on_message_deleted on_user_typing
  on_event now (new_message m) p = on_new_message m p
  on_event now (message_edited m) p = on_message_edited m p
  on_event now (message_deleted id r) p = on_message_deleted now id p
  on_event now (message_read user_id r id) p = p
  on_event now (user_typing user_id is_typing) p = on_user_typing now user_id is_typing p
  on_event now (room_list_updated l) p = p

  -- What of the server's calls reaches the panel: the socket stands in the channel of its room, and
  -- `client.to(…)` spares the client itself.
  unfoldable pub hear : ℕ → String → Call → Panel → Panel
  unfolding on_event
  hear now own (join c channel) p = p
  hear now own (leave c channel) p = p
  hear now own (disconnect c) p = p
  hear now own (emit channel e) p = if channel == room_channel room_id then on_event now e p else p
  hear now own (emit_from c channel e) p =
      if not (c == own) && channel == room_channel room_id then on_event now e p else p

  -- The calls are listed the latest first, and heard in their order.
  unfoldable pub hear_all : ℕ → String → List Call → Panel → Panel
  unfolding hear
  hear_all now own [] p = p
  hear_all now own (c ∷ cs) p = hear now own c (hear_all now own cs p)

  unfoldable pub handle_input_change : ℕ → String → Panel → Panel
  handle_input_change now text p =
      let started =
        if p.is_typing then p else emitting (typing room_id true) (record p { is_typing = true }) in
      record started { input = text; typing_debounce = some (now + typing_debounce_ms) }

  -- The timeout of `handleInputChange`.
  unfoldable pub on_typing_debounce : Panel → Panel
  on_typing_debounce p =
      emitting (typing room_id false) (record p { is_typing = false; typing_debounce = none })

  unfoldable pub send_message : Panel → Panel
  unfolding trim
  send_message p =
      if trim p.input == "" || not p.has_socket
      then p
      else emitting (typing room_id false)
          (record (emitting
            (send (record { room_id = room_id; content = some (trim p.input); attachments = none }))
            p) { input = ""; typing_debounce = none; is_typing = false })

unfoldable pub on_typing_timeout : String → Panel → Panel
on_typing_timeout user_id p = record p {
  typing_user_ids = without user_id p.typing_user_ids;
  typing_timeouts = without_timeout user_id p.typing_timeouts;
}

-- The timeouts that are due by a time fire.
abbrev pub fire : ℕ → List (String × ℕ) → Panel → Panel
fire now [] p = p
fire now ((user_id, due) ∷ ts) p =
    fire now ts (if leb due now then on_typing_timeout user_id p else p)

unfoldable pub advance : ℕ → Panel → Panel
unfolding on_typing_timeout
advance now p = fire now p.typing_timeouts p

unfoldable pub start_edit : FullMessage → Panel → Panel
start_edit m p = record p {
  editing_id = some m.message.id;
  edit_content = elim m.message.content [ none ↦ "" | some c ↦ c ];
}

unfoldable pub cancel_edit : Panel → Panel
cancel_edit p = record p { editing_id = none; edit_content = "" }

unfoldable pub submit_edit : Panel → Panel
unfolding trim
submit_edit p = elim p.editing_id [
  | none ↦ p
  | some id ↦
      if trim p.edit_content == "" || not p.has_socket || id == ""
      then p
      else record (emitting (edit id (trim p.edit_content)) p) {
        editing_id = none;
        edit_content = "";
      }
]

unfoldable pub delete_message : String → Panel → Panel
delete_message message_id p = emitting (delete message_id) p

-- `canDelete`, with the role that the room gives for the user, MEMBER where it gives none.
unfoldable pub can_delete : String → Bool → Message → Bool
can_delete current_user_id is_owner m = m.sender_id == current_user_id || is_owner
