-- ===== src/Chat/Audience/Strangers.antt =====
-- What one hears of a room's channel who does not take part in the room.
use talkertive_chat_app.Base.{
  Option, String, Bool, true, false, ◌≡◌, refl, ◌∙◌, ap, ◌&&◌, List, [], ◌∷◌, ◌==◌, string_eq,
  arith, inl, inr, not, In, All, id_iff, subst,
}
use talkertive_chat_app.World.{Clients, Fresh, ok, is_ok}
use talkertive_chat_app.RoomMembers.Outcomes.{takes_part}
use talkertive_chat_app.Chat.{SendMessageDto, send_message, FullMessage}
use talkertive_chat_app.Chat.Gateway.{
  Server, Socket, emit, new_message, ClientEvent, join_room, leave_room, send, edit, delete, read,
  typing, room_channel, handle_send_message, handle_event, can_activate, dispatch,
}
use talkertive_chat_app.Chat.Delivery.{handle_join_room_first, handle_send_message-calls}
use talkertive_chat_app.Chat.Audience.{
  Adapter, Occurrence, connected, closed, is_known, said, changed, run, stands, asked, is_in,
  is_in-occur, run-is_in,
}

abbrev pub leaves : String → ClientEvent → Bool
leaves room_id (leave_room r) = r == room_id
leaves room_id (join_room r) = false
leaves room_id (send d) = false
leaves room_id (edit i t) = false
leaves room_id (delete i) = false
leaves room_id (read r i) = false
leaves room_id (typing r t) = false

-- The socket is not closed, and does not itself ask to leave the room.
abbrev pub Remains : (String → Option String) → String → String → Occurrence → Type 0
Remains verify id room_id (connected c) = (c.id == id && not (is_known verify c)) ≡ false
Remains verify id room_id (closed c) = (c == id) ≡ false
Remains verify id room_id (said e c event) = (c.id == id && leaves room_id event) ≡ false
Remains verify id room_id (changed f) = Unit

asked-Remains :
    (room_id : String) (event : ClientEvent)
    → leaves room_id event ≡ false
    → asked room_id event true ≡ true
asked-Remains room_id (leave_room r) h = ground arith
asked-Remains room_id (join_room r) h = ground arith
asked-Remains room_id (send d) h = refl
asked-Remains room_id (edit i t) h = refl
asked-Remains room_id (delete i) h = refl
asked-Remains room_id (read r i) h = refl
asked-Remains room_id (typing r t) h = refl

stands-Remains :
    (verify : String → Option String) (id room_id : String) (os : List Occurrence)
    → All (Remains verify id room_id) os
    → stands verify id room_id os true ≡ true
stands-Remains verify id room_id [] h = refl
stands-Remains verify id room_id (connected c ∷ os) (h, hs) =
    ap (stands verify id room_id os) (ground arith) ∙ stands-Remains verify id room_id os hs
stands-Remains verify id room_id (closed c ∷ os) (h, hs) =
    ap (stands verify id room_id os) (ground arith) ∙ stands-Remains verify id room_id os hs
stands-Remains verify id room_id (changed f ∷ os) (h, hs) = stands-Remains verify id room_id os hs
stands-Remains verify id room_id (said e c event ∷ os) (h, hs) =
    ap (stands verify id room_id os) (ground (arith, asked-Remains room_id event))
    ∙ stands-Remains verify id room_id os hs

module _ (p : Clients) (a : Adapter) (verify : String → Option String) where
  -- One who does not take part in a room and asks to join it is answered with an error, and yet
  -- stands in the room's channel from then on, whatever else happens, until the socket is closed or
  -- itself asks to leave; every message that is sent to the room is then emitted to that channel.
  pub stranger_hears :
      (e e' : Fresh) (c : Socket) (u v room_id : String) (s : Server) (os : List Occurrence)
      (d : SendMessageDto) (x : FullMessage)
      → can_activate verify c ≡ ok u
      → takes_part p room_id u s.world ≡ false
      → All (Remains verify c.id room_id) os
      → d.room_id ≡ room_id
      → let joined = handle_event p verify e c (join_room room_id) s in
        let s' = run p verify os joined.1 in
        (send_message p e' v d s'.world).0 ≡ ok x
        → (is_ok joined.0 ≡ false)
          × (is_in p a c.id room_id s' ≡ true)
          × In
              (emit (room_channel room_id) (new_message x))
              (handle_send_message p e' v d s').1.calls
  unfolding handle_event dispatch
  stranger_hears e e' c u v room_id s os d x passed stranger stay here sent = (
    refused,
    run-is_in p a verify os _ c.id room_id
        ∙ ap (stands verify c.id room_id os) joined
        ∙ stands-Remains verify c.id room_id os stay,
    subst
        (λ r. In (emit (room_channel r) (new_message x)) (handle_send_message p e' v d s').1.calls)
        here (((handle_send_message-calls p e' v d s').2 x sent _).1 (inr (inl refl))),
  )
    where
      s' : Server
      s' = run p verify os (handle_event p verify e c (join_room room_id) s).1

      refused : is_ok (handle_event p verify e c (join_room room_id) s).0 ≡ false
      refused = ground (arith, (handle_join_room_first p c u room_id s).1)

      joined : is_in p a c.id room_id (handle_event p verify e c (join_room room_id) s).1 ≡ true
      joined = ground (
        arith,
        is_in-occur p a verify e c (join_room room_id) s c.id room_id,
        id_iff c.id c.id,
        id_iff room_id room_id,
      )
