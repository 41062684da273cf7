-- ===== src/Chat/Audience.antt =====
-- Which sockets stand in a room's channel over time, as the gateway's calls put them there.
pub mod Strangers
use talkertive_chat_app.Base.{
  Option, none, some, String, Bool, true, false, ◌≡◌, refl, ◌∙◌, ap, not, ◌&&◌, ◌||◌, List, [], ◌∷◌,
  ◌==◌, string_eq, if◌then◌else◌, arith, inl, inr, is_some, Option-cases,
}
use talkertive_chat_app.World.{World, Clients, Fresh, ok, err, is_ok}
use talkertive_chat_app.World.Keeps.{Result-cases}
use talkertive_chat_app.Chat.{
  SendMessageDto, send_message, edit_message, delete_message, mark_as_read, get_messages,
}
use talkertive_chat_app.Chat.Gateway.{
  Server, Socket, Call, join, leave, disconnect, emit, emit_from, ServerEvent, ClientEvent,
  join_room, leave_room, send, edit, delete, read, typing, RoomListPayload, room_channel,
  notify_all, handle_join_room, handle_leave_room, handle_send_message, handle_edit_message,
  handle_delete_message, handle_read_message, handle_typing, handle_event, can_activate, dispatch,
  handle_connection, subject, present, or_else, after_seven, user_channel, new_message,
  message_edited, message_deleted, message_read, user_typing, room_list_updated,
}
use talkertive_chat_app.Chat.Delivery.{sent-calls, handle_join_room_first}
use talkertive_chat_app.Chat.Names.{room_channel-eq, user_channel-eq}

-- What Socket.io documents of its rooms: after some calls, the latest first, whether a socket is in
-- a channel.
pub record Adapter : Type 0 where
  pub in_channel : List Call → String → String → Bool
  pub in_channel-join :
      (c ch : String) (cs : List Call) (d k : String)
      → in_channel (join c ch ∷ cs) d k ≡ ((c == d && ch == k) || in_channel cs d k)
  pub in_channel-leave :
      (c ch : String) (cs : List Call) (d k : String)
      → in_channel (leave c ch ∷ cs) d k ≡ (not (c == d && ch == k) && in_channel cs d k)
  pub in_channel-disconnect :
      (c : String) (cs : List Call) (d k : String)
      → in_channel (disconnect c ∷ cs) d k ≡ (not (c == d) && in_channel cs d k)
  pub in_channel-emit :
      (ch : String) (x : ServerEvent) (cs : List Call) (d k : String)
      → in_channel (emit ch x ∷ cs) d k ≡ in_channel cs d k
  pub in_channel-emit_from :
      (c ch : String) (x : ServerEvent) (cs : List Call) (d k : String)
      → in_channel (emit_from c ch x ∷ cs) d k ≡ in_channel cs d k

-- What happens: a socket connects, one is closed, by whichever side, a socket has an event, or
-- anything changes the database, such as a request that removes a member or deletes a room.
pub data Occurrence : Type 0 where
  connected : Socket → Occurrence
  closed : String → Occurrence
  said : Fresh → Socket → ClientEvent → Occurrence
  changed : (World → World) → Occurrence

module _ (p : Clients) (verify : String → Option String) where
  -- Of a socket that is closed Socket.io makes what it makes of `disconnect`.
  unfoldable pub occur : Occurrence → Server → Server
  unfolding handle_connection
  occur (connected c) s = (handle_connection verify c s).1
  occur (closed id) s = record s { calls = disconnect id ∷ s.calls }
  occur (said e c event) s = (handle_event p verify e c event s).1
  occur (changed f) s = record s { world = f s.world }

  unfoldable pub run : List Occurrence → Server → Server
  unfolding occur
  run [] s = s
  run (o ∷ os) s = run os (occur o s)

-- What an event asks for its socket's place in the channel of a room.
abbrev pub asked : String → ClientEvent → Bool → Bool
asked room_id (join_room r) b = r == room_id || b
asked room_id (leave_room r) b = not (r == room_id) && b
asked room_id (send d) b = b
asked room_id (edit i t) b = b
asked room_id (delete i) b = b
asked room_id (read r i) b = b
asked room_id (typing r t) b = b

-- Whether a socket that connects brings a token that verifies.
abbrev pub is_known : (String → Option String) → Socket → Bool
is_known verify c =
    is_some
      (subject verify (present (or_else (present c.auth_token) (after_seven c.authorization))))

-- Whether a socket stands in the channel of a room, by what it has asked for itself with a token
-- that verifies, and by whether it was closed.
abbrev pub stands : (String → Option String) → String → String → List Occurrence → Bool → Bool
stands verify id room_id [] b = b
stands verify id room_id (said e c event ∷ os) b =
    stands verify id room_id os
      (if c.id == id && is_ok (can_activate verify c) then asked room_id event b else b)
stands verify id room_id (connected c ∷ os) b =
    stands verify id room_id os (b && not (c.id == id && not (is_known verify c)))
stands verify id room_id (closed c ∷ os) b = stands verify id room_id os (b && not (c == id))
stands verify id room_id (changed f ∷ os) b = stands verify id room_id os b

module _ (p : Clients) (a : Adapter) where
  abbrev pub is_in : String → String → Server → Bool
  is_in id room_id s = a.in_channel s.calls id (room_channel room_id)

  is_in-notify_all :
      (ids : List String) (payload : RoomListPayload) (s : Server) (id room_id : String)
      → is_in id room_id (notify_all p ids payload s).1 ≡ is_in id room_id s
  unfolding notify_all
  is_in-notify_all [] payload s id room_id = refl
  is_in-notify_all (v ∷ ids) payload s id room_id =
      is_in-notify_all ids payload _ id room_id
      ∙ a.in_channel-emit _ (room_list_updated payload) s.calls id (room_channel room_id)

  pub is_in-send :
      (e : Fresh) (u : String) (d : SendMessageDto) (s : Server) (id room_id : String)
      → is_in id room_id (handle_send_message p e u d s).1 ≡ is_in id room_id s
  unfolding handle_send_message
  is_in-send e u d s id room_id = elim (Result-cases (send_message p e u d s.world).0) [
    | inr (x, failed) ↦ ground arith
    | inl (m, done) ↦
        ap (is_in id room_id) (sent-calls p e u d s m done)
        ∙ is_in-notify_all _ _ _ id room_id
        ∙ a.in_channel-emit _ (new_message m) s.calls id (room_channel room_id)
  ]

  is_in-dispatch :
      (e : Fresh) (c : Socket) (u : String) (event : ClientEvent) (s : Server) (id room_id : String)
      → is_in id room_id (dispatch p e c u event s).1
        ≡ (if c.id == id then asked room_id event (is_in id room_id s) else is_in id room_id s)
  unfolding dispatch handle_leave_room handle_edit_message handle_delete_message handle_read_message
      handle_typing
  is_in-dispatch e c u (join_room r) s id room_id = ground (
    arith,
    (handle_join_room_first p c u r s).0,
    a.in_channel-join c.id (room_channel r) s.calls id (room_channel room_id),
    room_channel-eq r room_id,
  )
  is_in-dispatch e c u (leave_room r) s id room_id = ground (
    arith,
    a.in_channel-leave c.id (room_channel r) s.calls id (room_channel room_id),
    room_channel-eq r room_id,
  )
  is_in-dispatch e c u (send d) s id room_id = ground (arith, is_in-send e u d s id room_id)
  is_in-dispatch e c u (edit i t) s id room_id =
      elim (Result-cases (edit_message p u i t s.world).0) [
        | inr (x, failed) ↦ ground arith
        | inl (m, done) ↦ ground (
          arith,
          a.in_channel-emit (room_channel m.message.room_id) (message_edited m) s.calls id
              (room_channel room_id),
        )
      ]
  is_in-dispatch e c u (delete i) s id room_id =
      elim (Result-cases (delete_message p e u i s.world).0) [
        | inr (x, failed) ↦ ground arith
        | inl (m, done) ↦ ground (
          arith,
          a.in_channel-emit (room_channel m.room_id) (message_deleted m.id m.room_id) s.calls id
              (room_channel room_id),
        )
      ]
  is_in-dispatch e c u (read r i) s id room_id = ground (
    arith,
    a.in_channel-emit_from c.id (room_channel r) (message_read u r i) s.calls id
        (room_channel room_id),
  )
  is_in-dispatch e c u (typing r t) s id room_id = ground (
    arith,
    a.in_channel-emit_from c.id (room_channel r) (user_typing u t) s.calls id
        (room_channel room_id),
  )

  pub is_in-occur :
      (verify : String → Option String) (e : Fresh) (c : Socket) (event : ClientEvent) (s : Server)
      (id room_id : String)
      → is_in id room_id (handle_event p verify e c event s).1 ≡ (
          if c.id == id && is_ok (can_activate verify c)
          then asked room_id event (is_in id room_id s)
          else is_in id room_id s)
  unfolding handle_event
  is_in-occur verify e c event s id room_id = elim (Result-cases (can_activate verify c)) [
    | inr (x, refused) ↦ rw refused (ground arith)
    | inl (u, passed) ↦ rw passed (ground (arith, is_in-dispatch e c u event s id room_id))
  ]

  is_in-connection :
      (verify : String → Option String) (c : Socket) (s : Server) (id room_id : String)
      → is_in id room_id (handle_connection verify c s).1
        ≡ (is_in id room_id s && not (c.id == id && not (is_known verify c)))
  unfolding handle_connection
  is_in-connection verify c s id room_id =
      elim (Option-cases
        (subject verify (present (or_else (present c.auth_token) (after_seven c.authorization))))) [
          | inl unknown ↦
              ground
                (arith, unknown, a.in_channel-disconnect c.id s.calls id (room_channel room_id))
          | inr (u, known) ↦ ground (
            arith,
            known,
            a.in_channel-join c.id (user_channel u) s.calls id (room_channel room_id),
            user_channel-eq u room_id,
          )
        ]

  -- Whether a socket stands in the channel of a room depends on what it has itself asked for with a
  -- token that verifies, and on whether it was closed, by whichever side, on nothing else: not on who
  -- takes part in the room, nor on what is removed or deleted meanwhile, nor on whether its request
  -- succeeded.
  pub run-is_in :
      (verify : String → Option String) (os : List Occurrence) (s : Server) (id room_id : String)
      → is_in id room_id (run p verify os s) ≡ stands verify id room_id os (is_in id room_id s)
  unfolding run
  run-is_in verify [] s id room_id = refl
  run-is_in verify (said e c event ∷ os) s id room_id =
      run-is_in verify os _ id room_id
      ∙ ap (stands verify id room_id os) (is_in-occur verify e c event s id room_id)
  run-is_in verify (connected c ∷ os) s id room_id =
      run-is_in verify os _ id room_id
      ∙ ap (stands verify id room_id os) (is_in-connection verify c s id room_id)
  run-is_in verify (closed c ∷ os) s id room_id =
      run-is_in verify os _ id room_id
      ∙ ap (stands verify id room_id os)
          (a.in_channel-disconnect c s.calls id (room_channel room_id) ∙ ground arith)
  run-is_in verify (changed f ∷ os) s id room_id = run-is_in verify os _ id room_id
