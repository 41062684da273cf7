-- ===== src/ChatPanel/Channels.antt =====
-- What of the gateway's calls a panel hears.
use talkertive_chat_app.Base.{
  ℕ, String, Bool, ◌≡◌, refl, ◌∙◌, List, [], ◌∷◌, ◌==◌, string_eq, if◌then◌else◌, arith,
}
use talkertive_chat_app.World.{Clients}
use talkertive_chat_app.Chat.Gateway.{
  Server, emit, emit_from, message_read, user_typing, ServerEvent, RoomListPayload, room_channel,
  notify_all,
}
use talkertive_chat_app.Chat.Names.{room_channel-eq}
use talkertive_chat_app.ChatPanel.{Panel, hear, hear_all, on_event}

module _ (room_id : String) (now : ℕ) (own : String) where
  -- A call to the room's channel is heard, a call to another room's is not.
  pub hear-emit :
      (q : String) (e : ServerEvent) (l : Panel)
      → hear room_id now own (emit (room_channel q) e) l
        ≡ (if q == room_id then on_event room_id now e l else l)
  unfolding hear
  hear-emit q e l = rw (room_channel-eq q room_id) refl

  -- Typing and reading leave the messages as they are shown.
  pub hear-emit_from_typing :
      (c q user_id : String) (t : Bool) (l : Panel)
      → (hear room_id now own (emit_from c q (user_typing user_id t)) l).messages ≡ l.messages
  unfolding hear
  hear-emit_from_typing c q user_id t l = ground arith

  pub hear-emit_from_read :
      (c q user_id r id : String) (l : Panel)
      → (hear room_id now own (emit_from c q (message_read user_id r id)) l).messages ≡ l.messages
  unfolding hear
  hear-emit_from_read c q user_id r id l = ground arith

  -- The notices of a message are no events of a panel.
  pub hear_all-notify_all :
      (p : Clients) (ids : List String) (payload : RoomListPayload) (s : Server) (l : Panel)
      → hear_all room_id now own (notify_all p ids payload s).1.calls l
        ≡ hear_all room_id now own s.calls l
  unfolding notify_all hear_all
  hear_all-notify_all p [] payload s l = refl
  hear_all-notify_all p (id ∷ ids) payload s l =
      hear_all-notify_all p ids payload _ l ∙ ground arith
