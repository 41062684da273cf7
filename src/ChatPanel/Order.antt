-- ===== src/ChatPanel/Order.antt =====
-- In which order the panel holds the messages of its room, and how often each.
use talkertive_chat_app.Base.{
  ℕ, String, ◌&&◌, ◌≡◌, refl, ap, ◌∙◌, Option, List, [], ◌∷◌, ◌++◌, map, ◌==◌, string_eq,
  if◌then◌else◌, inl, inr, arith, id_iff, Bool-cases,
}
use talkertive_chat_app.World.{World, Clients, Fresh, ok, err, is_ok}
use talkertive_chat_app.World.Keeps.{Result-cases}
use talkertive_chat_app.Chat.{FullMessage, SendMessageDto, send_message, get_active_member_ids}
use talkertive_chat_app.Chat.Sending.{send_message-message}
use talkertive_chat_app.Chat.Delivery.{sent-calls, after_message, handle_send_message-calls}
use talkertive_chat_app.Chat.Gateway.{
  Server, Socket, ServerEvent, ClientEvent, join_room, leave_room, send, edit, delete, read, typing,
  dispatch, leave, emit, emit_from, message_read, user_typing, message_edited, message_deleted,
  new_message, payload_of, room_channel, can_activate, handle_event, handle_leave_room,
  handle_typing, handle_read_message, handle_edit_message, handle_delete_message,
  handle_send_message,
}
use talkertive_chat_app.ChatPanel.{Panel, hear_all, on_event, replace_message, mark_deleted}
use talkertive_chat_app.ChatPanel.Channels.{
  hear-emit, hear-emit_from_read, hear-emit_from_typing, hear_all-notify_all,
}
use talkertive_chat_app.ChatPanel.Effects.{silent, edit-effect, delete-effect}
use talkertive_chat_app.ChatPanel.Rewrites.{
  hear_all-one, hear_all-none, edited-messages, deleted-messages,
}
use talkertive_chat_app.ChatPanel.Handlers.{read-effect, new-messages, unheard-join, join-effect}

abbrev pub id_of : FullMessage → String
id_of x = x.message.id

-- The identifiers of what the panel holds, in its order.
abbrev pub ids : Panel → List String
ids l = map id_of l.messages

map-ids :
    (f : FullMessage → FullMessage) (xs : List FullMessage)
    → ((x : FullMessage) → id_of (f x) ≡ id_of x)
    → map id_of (map f xs) ≡ map id_of xs
map-ids f [] h = refl
map-ids f (x ∷ xs) h = λ i. h x i ∷ map-ids f xs h i

ids-append :
    (xs : List FullMessage) (x : FullMessage)
    → map id_of (xs ++ x ∷ []) ≡ map id_of xs ++ id_of x ∷ []
ids-append [] x = refl
ids-append (y ∷ ys) x = ap (λ l. id_of y ∷ l) (ids-append ys x)

pub append_nil : (l : List String) → l ≡ l ++ []
append_nil [] = refl
append_nil (x ∷ l) = ap (λ k. x ∷ k) (append_nil l)

module _ (p : Clients) (room_id : String) where
  -- The message that an event of a user puts into the room, if it succeeds.
  abbrev pub sent_by : Fresh → ClientEvent → String → World → List String
  sent_by e (send d) u w =
      if d.room_id == room_id && is_ok (send_message p e u d w).0 then e.id ∷ [] else []
  sent_by e (join_room r) u w = []
  sent_by e (leave_room r) u w = []
  sent_by e (edit i t) u w = []
  sent_by e (delete i) u w = []
  sent_by e (read r i) u w = []
  sent_by e (typing r t) u w = []

  module _ (now : ℕ) (own : String) where
    abbrev after : Server → Panel → List String
    after s l = ids (hear_all room_id now own s.calls l)

    rewritten-ids :
        (r : String) (e : ServerEvent) (f : FullMessage → FullMessage) (l : Panel)
        → (on_event room_id now e l).messages ≡ map f l.messages
        → ((x : FullMessage) → id_of (f x) ≡ id_of x)
        → ids (hear_all room_id now own (emit (room_channel r) e ∷ []) l) ≡ ids l
    rewritten-ids r e f l told same =
        ap ids (
          hear_all-one p room_id now own (emit (room_channel r) e) l
          ∙ hear-emit room_id now own r e l)
        ∙ elim (Bool-cases (r == room_id)) [
          | inl here ↦ rw here (ap (map id_of) told ∙ map-ids f l.messages same)
          | inr apart ↦ rw apart refl
        ]

    edit-ids :
        (u id t : String) (w : World) (l : Panel)
        → after (handle_edit_message p u id t (silent w)).1 l ≡ ids l
    edit-ids u id t w l = elim (edit-effect p u id t (silent w)) [
      | inl (failed, same) ↦
          ap (λ (s : Server). after s l) same ∙ ap ids (hear_all-none p room_id now own l)
      | inr (x, done, said) ↦
          ap (λ (s : Server). after s l) said
          ∙ rewritten-ids x.message.room_id (message_edited x) (replace_message x) l
              (edited-messages p room_id now own x l)
              (λ y. ground (arith, id_iff y.message.id x.message.id))
    ]

    delete-ids :
        (e : Fresh) (u id : String) (w : World) (l : Panel)
        → after (handle_delete_message p e u id (silent w)).1 l ≡ ids l
    delete-ids e u id w l = elim (delete-effect p e u id (silent w)) [
      | inl (failed, same) ↦
          ap (λ (s : Server). after s l) same ∙ ap ids (hear_all-none p room_id now own l)
      | inr (x, done, said) ↦
          ap (λ (s : Server). after s l) said
          ∙ rewritten-ids x.room_id (message_deleted x.id x.room_id) (mark_deleted now x.id) l
              (deleted-messages p room_id now own x.id x.room_id l) (λ y. ground arith)
    ]

    read-ids :
        (c : Socket) (u r m : String) (w : World) (l : Panel)
        → after (handle_read_message p c u r m (silent w)).1 l ≡ ids l
    read-ids c u r m w l = elim (read-effect p room_id now own c u r m w).1 [
      | inl nothing ↦
          ap (λ k. ids (hear_all room_id now own k l)) nothing
          ∙ ap ids (hear_all-none p room_id now own l)
      | inr said ↦
          ap (λ k. ids (hear_all room_id now own k l)) said
          ∙ ap ids (
              hear_all-one p room_id now own (emit_from c.id (room_channel r) (message_read u r m))
                l)
          ∙ ap (map id_of) (hear-emit_from_read room_id now own c.id (room_channel r) u r m l)
    ]

    send-ids :
        (e : Fresh) (u : String) (d : SendMessageDto) (w : World) (l : Panel)
        → after (handle_send_message p e u d (silent w)).1 l ≡ ids l ++ sent_by e (send d) u w
    send-ids e u d w l =
        let w' = (send_message p e u d w).1 in
        let (world, failing, _) = handle_send_message-calls p e u d (silent w) in
        elim (Result-cases (send_message p e u d w).0) [
          | inr (x, failed) ↦
              ap (λ k. ids (hear_all room_id now own k l)) (failing (ground arith))
              ∙ ap ids (hear_all-none p room_id now own l)
              ∙ append_nil (ids l)
              ∙ ground arith
          | inl (x, done) ↦
              let at = send_message-message p e u d w x done in
              let told = emit (room_channel d.room_id) (new_message x) in
              let said =
                ap (λ s. hear_all room_id now own s.calls l) (sent-calls p e u d (silent w) x done)
                ∙ hear_all-notify_all room_id now own p (get_active_member_ids p d.room_id w')
                    (payload_of p d.room_id x) (after_message p e u d (silent w) x) l
                ∙ hear_all-one p room_id now own told l
                ∙ hear-emit room_id now own d.room_id (new_message x) l in
              ap ids said ∙ elim (Bool-cases (d.room_id == room_id)) [
                | inl here ↦ rw here (
                    ap (map id_of) (new-messages p room_id now own x l)
                    ∙ ids-append l.messages x
                    ∙ ground (arith, at))
                | inr apart ↦ rw apart (append_nil (ids l))
              ]
        ]

    unheard-leave :
        (c q : String) (l : Panel)
        → (hear_all room_id now own (leave c q ∷ []) l).messages ≡ l.messages
    unfolding hear_all
    unheard-leave c q l = refl

    dispatch-ids :
        (e : Fresh) (c : Socket) (u : String) (event : ClientEvent) (w : World) (l : Panel)
        → after (dispatch p e c u event (silent w)).1 l ≡ ids l ++ sent_by e event u w
    unfolding dispatch handle_leave_room handle_typing
    dispatch-ids e c u (join_room r) w l =
        ap (λ k. ids (hear_all room_id now own k l)) (join-effect p room_id now own c u r w).1
        ∙ ap (map id_of) (unheard-join p room_id now own c.id (room_channel r) l)
        ∙ append_nil (ids l)
    dispatch-ids e c u (leave_room r) w l =
        ap (map id_of) (unheard-leave c.id (room_channel r) l) ∙ append_nil (ids l)
    dispatch-ids e c u (send d) w l = send-ids e u d w l
    dispatch-ids e c u (edit i t) w l = edit-ids u i t w l ∙ append_nil (ids l)
    dispatch-ids e c u (delete i) w l = delete-ids e u i w l ∙ append_nil (ids l)
    dispatch-ids e c u (read r i) w l = read-ids c u r i w l ∙ append_nil (ids l)
    dispatch-ids e c u (typing r t) w l =
        ap ids
          (hear_all-one p room_id now own (emit_from c.id (room_channel r) (user_typing u t)) l)
        ∙ ap (map id_of) (hear-emit_from_typing room_id now own c.id (room_channel r) u t l)
        ∙ append_nil (ids l)

  -- The message that an event of a socket puts into the room, if it succeeds.
  abbrev pub sent_in : (String → Option String) → Fresh → Socket → ClientEvent → World → List String
  sent_in verify e c event w = elim (can_activate verify c) [
    | err x ↦ []
    | ok u ↦ sent_by e event u w
  ]

  pub handle_event-ids :
      (now : ℕ) (own : String) (verify : String → Option String) (e : Fresh) (c : Socket)
      (event : ClientEvent) (w : World) (l : Panel)
      → ids (hear_all room_id now own (handle_event p verify e c event (silent w)).1.calls l)
        ≡ ids l ++ sent_in verify e c event w
  unfolding handle_event
  handle_event-ids now own verify e c event w l = elim (Result-cases (can_activate verify c)) [
    | inl (u, known) ↦
        let same : (handle_event p verify e c event (silent w)).1
            ≡ (dispatch p e c u event (silent w)).1 =
          ground arith in
        ap (λ (s : Server). ids (hear_all room_id now own s.calls l)) same
        ∙ dispatch-ids now own e c u event w l
        ∙ ground arith
    | inr (x, refused) ↦
        let same : (handle_event p verify e c event (silent w)).1 ≡ silent w = ground arith in
        ap (λ (s : Server). ids (hear_all room_id now own s.calls l)) same
        ∙ ap ids (hear_all-none p room_id now own l)
        ∙ append_nil (ids l)
        ∙ ground arith
  ]
