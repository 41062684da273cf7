-- ===== src/Chat/Ownership.antt =====
-- What an event of the gateway does to the ownership of rooms.
use talkertive_chat_app.Base.{ℕ, String, refl, Option, none, inl, inr, arith, Option-cases}
use talkertive_chat_app.World.{Clients, Fresh, pure, create_message, create_attachment, ◌>>=◌, ◌>>◌}
use talkertive_chat_app.World.Keeps.{Keeps, Result-cases, bind-Keeps, transaction-Keeps}
use talkertive_chat_app.World.Preserves.{Preserves}
use talkertive_chat_app.Schema.{Message, MessageAttachment}
use talkertive_chat_app.Rooms.Upkeep.{
  HasOwners, tables, of_tables, tables-Preserves, update_member-HasOwners,
}
use talkertive_chat_app.Chat.{
  SendMessageDto, send_message, store_message, create_attachments, new_message, given, edit_message,
  delete_message, mark_as_read, set_last_read, get_messages, find_message,
}
use talkertive_chat_app.Chat.Gateway.{
  Server, Socket, ClientEvent, join_room, leave_room, send, edit, delete, read, typing,
  handle_join_room, handle_leave_room, handle_edit_message, handle_delete_message,
  handle_read_message, handle_typing, handle_event, can_activate, dispatch,
}
use talkertive_chat_app.Chat.Sending.{create_attachments-Keeps}
use talkertive_chat_app.Chat.Delivery.{handle_send_message-calls}

module _ (p : Clients) where
  create_message-Keeps : (m : Message) → Keeps tables (create_message p m)
  unfolding create_message
  create_message-Keeps m w = ground arith

  create_attachment-Keeps : (a : MessageAttachment) → Keeps tables (create_attachment p a)
  unfolding create_attachment
  create_attachment-Keeps a w = ground arith

  store_message-Keeps :
      (e : Fresh) (u : String) (d : SendMessageDto) → Keeps tables (store_message p e u d)
  unfolding store_message
  store_message-Keeps e u d =
      let more = λ (m : Message). create_attachments p e m.id 0 (given d.attachments) in
      transaction-Keeps tables (create_message p (new_message e u d) >>= λ m. more m >> pure m) (
        bind-Keeps tables (create_message p (new_message e u d)) (λ m. more m >> pure m)
          (create_message-Keeps (new_message e u d))
          (λ m.
            bind-Keeps tables (more m) (λ _. pure m)
              (create_attachments-Keeps p tables create_attachment-Keeps e m.id 0
                (given d.attachments))
              (λ _ w. refl)))

  -- Sending changes neither the rooms nor their members.
  pub send_message-Keeps :
      (e : Fresh) (u : String) (d : SendMessageDto) → Keeps tables (send_message p e u d)
  unfolding send_message
  send_message-Keeps e u d w = ground (arith, store_message-Keeps e u d w)

  edit_message-Keeps : (u i t : String) → Keeps tables (edit_message p u i t)
  unfolding edit_message
  edit_message-Keeps u i t w = ground arith

  delete_message-Keeps : (e : Fresh) (u i : String) → Keeps tables (delete_message p e u i)
  unfolding delete_message
  delete_message-Keeps e u i w = ground arith

  get_messages-Keeps :
      (u r : String) (c : Option String) (n : ℕ) → Keeps tables (get_messages p u r c n)
  unfolding get_messages
  get_messages-Keeps u r c n w = ground arith

  mark_as_read-HasOwners : (u r i : String) → Preserves (HasOwners p) (mark_as_read p u r i)
  unfolding mark_as_read
  mark_as_read-HasOwners u r i w h = elim (Option-cases (find_message p i w)) [
    | inl missing ↦ rw (missing, mark_as_read) h
    | inr (m, q) ↦
        rw (q, mark_as_read)
          (update_member-HasOwners p r u (set_last_read m.created_at) (λ x. (refl, refl, refl)) w h)
  ]

  dispatch-HasOwners :
      (e : Fresh) (c : Socket) (u : String) (event : ClientEvent) (s : Server)
      → HasOwners p s.world
      → HasOwners p (dispatch p e c u event s).1.world
  unfolding dispatch handle_join_room handle_leave_room handle_edit_message handle_delete_message
      handle_read_message handle_typing
  dispatch-HasOwners e c u (join_room r) s h =
      of_tables p (dispatch p e c u (join_room r) s).1.world s.world
        (ground (arith, get_messages-Keeps u r none 50 s.world)) h
  dispatch-HasOwners e c u (leave_room r) s h = h
  dispatch-HasOwners e c u (send d) s h =
      rw ((handle_send_message-calls p e u d s).0)
        (tables-Preserves p (send_message p e u d) (send_message-Keeps e u d) s.world h)
  dispatch-HasOwners e c u (edit i t) s h =
      of_tables p (dispatch p e c u (edit i t) s).1.world s.world
        (ground (arith, edit_message-Keeps u i t s.world)) h
  dispatch-HasOwners e c u (delete i) s h =
      of_tables p (dispatch p e c u (delete i) s).1.world s.world
        (ground (arith, delete_message-Keeps e u i s.world)) h
  dispatch-HasOwners e c u (read r i) s h =
      of_tables p (dispatch p e c u (read r i) s).1.world (mark_as_read p u r i s.world).1
        (ground arith) (mark_as_read-HasOwners u r i s.world h)
  dispatch-HasOwners e c u (typing r t) s h = h

  pub handle_event-HasOwners :
      (verify : String → Option String) (e : Fresh) (c : Socket) (event : ClientEvent) (s : Server)
      → HasOwners p s.world
      → HasOwners p (handle_event p verify e c event s).1.world
  unfolding handle_event
  handle_event-HasOwners verify e c event s h = elim (Result-cases (can_activate verify c)) [
    | inr (x, refused) ↦ rw (refused, handle_event) h
    | inl (u, passed) ↦ rw (passed, handle_event) (dispatch-HasOwners e c u event s h)
  ]
