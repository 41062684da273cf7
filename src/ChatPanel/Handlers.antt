-- ===== src/ChatPanel/Handlers.antt =====
-- The panel hears of what the gateway has done with one event.
use talkertive_chat_app.Base.{
  ℕ, String, Bool, ◌≡◌, refl, ap, ◌∙◌, none, some, [], ◌∷◌, ◌++◌, ◌==◌, string_eq, if◌then◌else◌,
  inl, inr, arith, id_iff, Bool-cases, ◌⊎◌,
}
use talkertive_chat_app.World.{World, Clients, Fresh, update_member}
use talkertive_chat_app.World.Keeps.{Result-cases}
use talkertive_chat_app.Chat.{
  FullMessage, new_message as stored_message, find_message, SendMessageDto, send_message,
  mark_as_read, get_active_member_ids,
}
use talkertive_chat_app.Chat.Sending.{send_message_lem, send_message-message}
use talkertive_chat_app.Chat.Reading.{get_messages_lem}
use talkertive_chat_app.Chat.Delivery.{sent-calls, after_message, handle_send_message-calls}
use talkertive_chat_app.Chat.Gateway.{
  Server, Socket, payload_of, emit, emit_from, message_read, user_typing, join, room_channel,
  new_message, handle_send_message, handle_read_message, handle_join_room, handle_leave_room,
  handle_typing,
}
use talkertive_chat_app.ChatPanel.{Panel, hear_all, on_event}
use talkertive_chat_app.ChatPanel.Channels.{
  hear-emit, hear-emit_from_read, hear-emit_from_typing, hear_all-notify_all,
}
use talkertive_chat_app.ChatPanel.Sync.{Shows, Shows-same, Shows-new, Shows-elsewhere}
use talkertive_chat_app.ChatPanel.Effects.{silent}
use talkertive_chat_app.ChatPanel.Rewrites.{ShowsAfter, hear_all-one, hear_all-none}

module _ (p : Clients) (room_id : String) (now : ℕ) (own : String) where
  -- What is said of no message.
  pub quiet-Shows :
      (s : Server) (w : World) (l : Panel)
      → Shows p room_id w l.messages
      → s.world.messages ≡ w.messages
      → (hear_all room_id now own s.calls l).messages ≡ l.messages
      → ShowsAfter p room_id now own s l
  quiet-Shows s w l shows same quiet = rw quiet (
      Shows-same p room_id w s.world l.messages shows
        (λ j. ap (λ t. p.message.find_unique j t) same))

  mark_as_read-messages :
      (u r m : String) (w : World) → (mark_as_read p u r m w).1.messages ≡ w.messages
  unfolding mark_as_read update_member
  mark_as_read-messages u r m w = ground arith

  pub read-effect :
      (c : Socket) (u r m : String) (w : World)
      → let s' = (handle_read_message p c u r m (silent w)).1 in
        (s'.world ≡ (mark_as_read p u r m w).1)
        × ((s'.calls ≡ []) ⊎ (s'.calls ≡ emit_from c.id (room_channel r) (message_read u r m) ∷ []))
  unfolding handle_read_message
  read-effect c u r m w = elim (Result-cases (mark_as_read p u r m w).0) [
    | inl (x, done) ↦ (ground arith, inr (ground arith))
    | inr (x, failed) ↦ (ground arith, inl (ground arith))
  ]

  pub read-Shows :
      (c : Socket) (u r m : String) (w : World) (l : Panel)
      → Shows p room_id w l.messages
      → ShowsAfter p room_id now own (handle_read_message p c u r m (silent w)).1 l
  read-Shows c u r m w l shows =
      let s' = (handle_read_message p c u r m (silent w)).1 in
      let (world, calls) = read-effect c u r m w in
      quiet-Shows s' w l shows (ap (λ v. v.messages) world ∙ mark_as_read-messages u r m w)
        (elim calls [
          | inl none_said ↦ rw none_said (ap (λ l. l.messages) (hear_all-none p room_id now own l))
          | inr said ↦
              rw
                (
                  said,
                  hear_all-one p room_id now own
                      (emit_from c.id (room_channel r) (message_read u r m)) l,
                )
                (hear-emit_from_read room_id now own c.id (room_channel r) u r m l)
        ])

  pub new-messages :
      (x : FullMessage) (l : Panel)
      → (on_event room_id now (new_message x) l).messages ≡ l.messages ++ x ∷ []
  unfolding on_event
  new-messages x l = ground arith

  pub send-Shows :
      (e : Fresh) (u : String) (d : SendMessageDto) (w : World) (l : Panel)
      → Shows p room_id w l.messages
      → ShowsAfter p room_id now own (handle_send_message p e u d (silent w)).1 l
  send-Shows e u d w l shows =
      let w' = (send_message p e u d w).1 in
      let (world, failing, _) = handle_send_message-calls p e u d (silent w) in
      elim (Result-cases (send_message p e u d w).0) [
        | inr (x, failed) ↦
            quiet-Shows (handle_send_message p e u d (silent w)).1 w l shows
              (rw world (ap (λ v. v.messages) ((send_message_lem p e u e.id d w).1 (ground arith))))
              (rw (failing (ground arith))
                (ap (λ l. l.messages) (hear_all-none p room_id now own l)))
        | inl (x, done) ↦
            let at = send_message-message p e u d w x done in
            let effect : (j : String)
                → (find_message p e.id w ≡ none)
                  × (find_message p j w'
                      ≡ (if e.id == j then some (stored_message e u d) else find_message p j w)) =
              λ j. (send_message_lem p e u j d w).2 (ground arith) in
            let told = emit (room_channel d.room_id) (new_message x) in
            let ids = get_active_member_ids p d.room_id w' in
            let stored : (j : String)
                → find_message p j w'
                  ≡ (if x.message.id == j then some x.message else find_message p j w) =
              λ j. rw at (effect j).1 in
            let free : find_message p x.message.id w ≡ none = rw at (effect e.id).0 in
            let said =
              ap (λ s. hear_all room_id now own s.calls l) (sent-calls p e u d (silent w) x done)
              ∙ hear_all-notify_all room_id now own p ids (payload_of p d.room_id x)
                  (after_message p e u d (silent w) x) l
              ∙ hear_all-one p room_id now own told l
              ∙ hear-emit room_id now own d.room_id (new_message x) l in
            rw (world, said)
              (elim (Bool-cases (d.room_id == room_id)) [
                | inl here ↦
                    rw (here, new-messages x l)
                      (Shows-new p room_id w w' l.messages shows x
                        (ap (λ m. m.room_id) at ∙ (id_iff d.room_id room_id).0 here) free stored)
                | inr apart ↦ rw apart (
                    Shows-elsewhere p room_id w w' l.messages shows x.message
                      (ap (λ m. m.room_id == room_id) at ∙ apart) free stored)
              ])
      ]

  pub unheard-join :
      (c q : String) (l : Panel)
      → (hear_all room_id now own (join c q ∷ []) l).messages ≡ l.messages
  unfolding hear_all
  unheard-join c q l = refl

  pub left-Shows :
      (c : Socket) (r : String) (w : World) (l : Panel)
      → Shows p room_id w l.messages
      → ShowsAfter p room_id now own (handle_leave_room p c r (silent w)).1 l
  unfolding handle_leave_room hear_all
  left-Shows c r w l shows = shows

  pub typing-Shows :
      (c : Socket) (u r : String) (t : Bool) (w : World) (l : Panel)
      → Shows p room_id w l.messages
      → ShowsAfter p room_id now own (handle_typing p c u r t (silent w)).1 l
  unfolding handle_typing
  typing-Shows c u r t w l shows =
      rw
        (
          hear_all-one p room_id now own (emit_from c.id (room_channel r) (user_typing u t)) l,
          hear-emit_from_typing room_id now own c.id (room_channel r) u t l,
        )
        shows

  pub join-effect :
      (c : Socket) (u r : String) (w : World)
      → let s' = (handle_join_room p c u r (silent w)).1 in
        (s'.world ≡ w) × (s'.calls ≡ join c.id (room_channel r) ∷ [])
  unfolding handle_join_room
  join-effect c u r w =
      let (allowed, same, page) = get_messages_lem p u r none 50 w in
      (ground (arith, same), ground arith)
