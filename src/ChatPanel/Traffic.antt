-- ===== src/ChatPanel/Traffic.antt =====
-- The panel and the gateway together: what the panel shows after the gateway has handled events.
use talkertive_chat_app.Base.{
  append_assoc, ℕ, String, ◌≡◌, sym, ap, subst, Option, List, [], ◌∷◌, ◌++◌, ◌∙◌, string_eq, inl,
  inr, arith,
}
use talkertive_chat_app.World.{World, Clients, Fresh}
use talkertive_chat_app.World.Keeps.{Result-cases}
use talkertive_chat_app.Chat.Gateway.{
  Socket, ClientEvent, join_room, leave_room, send, edit, delete, read, typing, dispatch,
  room_channel, can_activate, handle_event, handle_join_room,
}
use talkertive_chat_app.ChatPanel.{Panel, hear_all}
use talkertive_chat_app.ChatPanel.Sync.{Shows}
use talkertive_chat_app.ChatPanel.Effects.{silent}
use talkertive_chat_app.ChatPanel.Order.{ids, sent_in, append_nil, handle_event-ids}
use talkertive_chat_app.ChatPanel.Rewrites.{ShowsAfter, hear_all-none, edit-Shows, delete-Shows}
use talkertive_chat_app.ChatPanel.Handlers.{
  quiet-Shows, read-Shows, send-Shows, left-Shows, typing-Shows, join-effect, unheard-join,
}

module _ (p : Clients) (room_id : String) (now : ℕ) (own : String) where
  -- A handler of any event.
  dispatch-Shows :
      (e : Fresh) (c : Socket) (u : String) (event : ClientEvent) (w : World) (l : Panel)
      → Shows p room_id w l.messages
      → ShowsAfter p room_id now own (dispatch p e c u event (silent w)).1 l
  unfolding dispatch
  dispatch-Shows e c u (join_room r) w l shows =
      let s' = (handle_join_room p c u r (silent w)).1 in
      let (world, calls) = join-effect p room_id now own c u r w in
      quiet-Shows p room_id now own s' w l shows (ap (λ v. v.messages) world)
        (rw calls (unheard-join p room_id now own c.id (room_channel r) l))
  dispatch-Shows e c u (leave_room r) w l shows = left-Shows p room_id now own c r w l shows
  dispatch-Shows e c u (send d) w l shows = send-Shows p room_id now own e u d w l shows
  dispatch-Shows e c u (edit id content) w l shows =
      edit-Shows p room_id now own u id content w l shows
  dispatch-Shows e c u (delete id) w l shows = delete-Shows p room_id now own e u id w l shows
  dispatch-Shows e c u (read r m) w l shows = read-Shows p room_id now own c u r m w l shows
  dispatch-Shows e c u (typing r t) w l shows = typing-Shows p room_id now own c u r t w l shows

  handle_event-Shows :
      (verify : String → Option String) (e : Fresh) (c : Socket) (event : ClientEvent) (w : World)
      (l : Panel)
      → Shows p room_id w l.messages
      → ShowsAfter p room_id now own (handle_event p verify e c event (silent w)).1 l
  unfolding handle_event
  handle_event-Shows verify e c event w l shows = elim (Result-cases (can_activate verify c)) [
    | inl (u, known) ↦
        let same : (handle_event p verify e c event (silent w)).1
            ≡ (dispatch p e c u event (silent w)).1 =
          ground arith in
        subst (λ s. ShowsAfter p room_id now own s l) (sym same)
          (dispatch-Shows e c u event w l shows)
    | inr (x, refused) ↦
        let same : (handle_event p verify e c event (silent w)).1 ≡ silent w = ground arith in
        subst (λ s. ShowsAfter p room_id now own s l) (sym same)
          (rw (hear_all-none p room_id now own l) shows)
  ]

-- A client's event as it reaches the gateway, and the time at which the panel hears of it.
pub record Arrival : Type 0 where
  pub fresh : Fresh
  pub socket : Socket
  pub event : ClientEvent
  pub heard_at : ℕ

module _ (p : Clients) (verify : String → Option String) (room_id own : String) where
  -- Events are handled one after the other, and the panel hears of each before the next.
  unfoldable pub deliver : List Arrival → World × Panel → World × Panel
  deliver [] (w, l) = (w, l)
  deliver (a ∷ arrivals) (w, l) =
      let s = (handle_event p verify a.fresh a.socket a.event (silent w)).1 in
      deliver arrivals (s.world, hear_all room_id a.heard_at own s.calls l)

  -- The identifiers of the messages that the events put into the room, in the events' order.
  unfoldable pub sent_ids : List Arrival → World → List String
  unfolding deliver
  sent_ids [] w = []
  sent_ids (a ∷ arrivals) w =
      sent_in p room_id verify a.fresh a.socket a.event w
      ++ sent_ids arrivals (handle_event p verify a.fresh a.socket a.event (silent w)).1.world

  deliver-ids :
      (arrivals : List Arrival) (w : World) (l : Panel)
      → ids (deliver arrivals (w, l)).1 ≡ ids l ++ sent_ids arrivals w
  unfolding deliver sent_ids
  deliver-ids [] w l = append_nil (ids l)
  deliver-ids (a ∷ arrivals) w l =
      let said = handle_event-ids p room_id a.heard_at own verify a.fresh a.socket a.event w l in
      deliver-ids arrivals _ _
      ∙ ap
          (λ k.
            k
            ++ sent_ids arrivals
                (handle_event p verify a.fresh a.socket a.event (silent w)).1.world)
          said
      ∙ append_assoc (ids l) _ _

  deliver-messages :
      (arrivals : List Arrival) (w : World) (l : Panel)
      → Shows p room_id w l.messages
      → let (w', l') = deliver arrivals (w, l) in Shows p room_id w' l'.messages
  unfolding deliver
  deliver-messages [] w l shows = shows
  deliver-messages (a ∷ arrivals) w l shows =
      deliver-messages arrivals _ _
        (handle_event-Shows p room_id a.heard_at own verify a.fresh a.socket a.event w l shows)

  -- Where a panel shows exactly the stored messages of its room, in the text and with the marks of
  -- their last version, it does so after any events of any clients, whatever they do in this room or
  -- in others, where each is announced to the panel before the next is handled. The messages that it
  -- held stay in their places, and behind them stand those that the events have put into the room,
  -- each once and in the order of the events. Of attachments nothing is said.
  pub deliver-Shows :
      (arrivals : List Arrival) (w : World) (l : Panel)
      → Shows p room_id w l.messages
      → let (w', l') = deliver arrivals (w, l) in
        Shows p room_id w' l'.messages × (ids l' ≡ ids l ++ sent_ids arrivals w)
  deliver-Shows arrivals w l shows = (deliver-messages arrivals w l shows, deliver-ids arrivals w l)
