-- ===== src/Chat/Delivery.antt =====
-- To whom the gateway speaks, and what it does for whom it does not know.
use talkertive_chat_app.Base.{
  String, true, false, ◌≡◌, refl, Option, none, some, List, [], ◌∷◌, map, In, In-map, map-In,
  some_of_is_some, subst, ap, ◌∙◌, arith, id_iff, ◌==◌, string_eq, ◌⊎◌, ◌↔◌, inl, inr, Option-cases,
  pair_eq,
}
use talkertive_chat_app.World.{World, Clients, Fresh, ok, is_ok, member_key}
use talkertive_chat_app.World.Keeps.{Result-cases}
use talkertive_chat_app.RoomMembers.{find_member, is_active_in}
use talkertive_chat_app.RoomMembers.Outcomes.{takes_part}
use talkertive_chat_app.Chat.{SendMessageDto, send_message, FullMessage, get_active_member_ids}
use talkertive_chat_app.Chat.Reading.{get_messages_lem}
use talkertive_chat_app.Chat.Gateway.{
  Server, Socket, Call, join, emit, new_message, room_list_updated, room_channel, user_channel,
  payload_of, RoomListPayload, notify_all, handle_send_message, handle_join_room, handle_event,
  dispatch, extract_token, ClientEvent,
}

module _ (p : Clients) where
  abbrev notice : RoomListPayload → String → Call
  notice payload id = emit (user_channel id) (room_list_updated payload)

  notify_all-world :
      (ids : List String) (payload : RoomListPayload) (s : Server)
      → ((notify_all p ids payload s).0 ≡ ok tt) × ((notify_all p ids payload s).1.world ≡ s.world)
  unfolding notify_all
  notify_all-world [] payload s = (refl, refl)
  notify_all-world (id ∷ ids) payload s = notify_all-world ids payload _

  notify_all-calls :
      (ids : List String) (payload : RoomListPayload) (s : Server) (c : Call)
      → In c (notify_all p ids payload s).1.calls ↔ (In c s.calls ⊎ In c (map (notice payload) ids))
  unfolding notify_all
  notify_all-calls [] payload s c = (λ h. inl h, λ h. elim h [ inl a ↦ a | inr b ↦ absurd b ])
  notify_all-calls (id ∷ ids) payload s c =
      let ih = notify_all-calls ids payload _ c in
      (
        λ h. elim (ih.0 h) [
          | inl (inl a) ↦ inr (inl a)
          | inl (inr b) ↦ inl b
          | inr d ↦ inr (inr d)
        ],
        λ h.
            ih.1 (elim h [ inl b ↦ inl (inr b) | inr (inl a) ↦ inl (inl a) | inr (inr d) ↦ inr d ]),
      )

  active-In :
      (room_id v : String) (w : World)
      → In v (get_active_member_ids p room_id w) ↔ (takes_part p room_id v w ≡ true)
  unfolding get_active_member_ids
  active-In room_id v w =
      let rows = p.room_member.find_many (is_active_in room_id) w.room_members in
      (
        λ h.
            let (m, i, e) = In-map (λ m. m.user_id) v rows h in
            let (found, active) =
              (p.room_member.In-find_many (is_active_in room_id) w.room_members m).0 i in
            ground (arith, id_iff m.room_id room_id),
        λ h.
            let (m, found) = some_of_is_some (find_member p room_id v w) (ground arith) in
            let k = p.room_member.find-key found in
            let here : is_active_in room_id m ≡ true = ground (arith, id_iff m.room_id room_id) in
            let stored : p.room_member.find_unique (member_key m) w.room_members ≡ some m =
              ground arith in
            let i =
              (p.room_member.In-find_many (is_active_in room_id) w.room_members m).1
                (stored, here) in
            subst (λ x. In x (map (λ m. m.user_id) rows)) (ap (λ k. k.1) k)
              (map-In (λ m. m.user_id) m rows i),
      )

  abbrev pub after_message : Fresh → String → SendMessageDto → Server → FullMessage → Server
  after_message e user_id d s x = record {
    world = (send_message p e user_id d s.world).1;
    calls = emit (room_channel d.room_id) (new_message x) ∷ s.calls;
  }

  -- What the gateway has said once a message is sent.
  pub sent-calls :
      (e : Fresh) (user_id : String) (d : SendMessageDto) (s : Server) (x : FullMessage)
      → (send_message p e user_id d s.world).0 ≡ ok x
      → let w' = (send_message p e user_id d s.world).1 in
        (handle_send_message p e user_id d s).1
        ≡ (notify_all p
            (get_active_member_ids p d.room_id w')
            (payload_of p d.room_id x)
            (after_message e user_id d s x)).1
  unfolding handle_send_message
  sent-calls e user_id d s x done = ground (
    arith,
    notify_all-world (get_active_member_ids p d.room_id (send_message p e user_id d s.world).1)
        (payload_of p d.room_id x) (after_message e user_id d s x),
  )

  sent-world :
      (e : Fresh) (user_id : String) (d : SendMessageDto) (s : Server)
      → (handle_send_message p e user_id d s).1.world ≡ (send_message p e user_id d s.world).1
  unfolding handle_send_message
  sent-world e user_id d s = elim (Result-cases (send_message p e user_id d s.world).0) [
    | inl (x, done) ↦
        ap (λ v. v.world) (sent-calls e user_id d s x done)
        ∙ (notify_all-world (get_active_member_ids p d.room_id _) (payload_of p d.room_id x)
            (after_message e user_id d s x)).1
    | inr (x, failed) ↦ ground arith
  ]

  -- Where sending succeeds, the gateway emits, besides what it had emitted, the message to the
  -- channel of its room, and a notice of it to the channel of each user who takes part in the room
  -- then, the sender among them, and nothing else. Where sending fails it emits nothing.
  pub handle_send_message-calls :
      (e : Fresh) (user_id : String) (d : SendMessageDto) (s : Server)
      → let s' = (handle_send_message p e user_id d s).1 in
        let w' = (send_message p e user_id d s.world).1 in
        (s'.world ≡ w')
        × (is_ok (send_message p e user_id d s.world).0 ≡ false → s'.calls ≡ s.calls)
        × ((x : FullMessage)
            → (send_message p e user_id d s.world).0 ≡ ok x
            → (c : Call)
            → In c s'.calls ↔ (
                In c s.calls
                ⊎ (emit (room_channel d.room_id) (new_message x) ≡ c)
                ⊎ ((v : String) × (takes_part p d.room_id v w' ≡ true)
                    × (notice (payload_of p d.room_id x) v ≡ c))))
  unfolding handle_send_message
  handle_send_message-calls e user_id d s = (
    sent-world e user_id d s,
    λ failed. ground arith,
    λ x done c.
        let ids = get_active_member_ids p d.room_id (send_message p e user_id d s.world).1 in
        let load = payload_of p d.room_id x in
        let said = notify_all-calls ids load (after_message e user_id d s x) c in
        rw (sent-calls e user_id d s x done) (
          λ h. elim (said.0 h) [
            | inl (inl a) ↦ inr (inl a)
            | inl (inr b) ↦ inl b
            | inr n ↦
                let (v, i, q) = In-map (notice load) c ids n in
                inr (inr (v, (active-In d.room_id v _).0 i, q))
          ],
          λ h. said.1 (elim h [
            | inl b ↦ inl (inr b)
            | inr (inl a) ↦ inl (inl a)
            | inr (inr (v, t, q)) ↦ inr (
                subst (λ x. In x (map (notice load) ids)) q
                  (map-In (notice load) v ids ((active-In d.room_id v _).1 t)))
          ]),
        ),
  )

  -- A client with no token, or with one that does not verify, gets an error for every event,
  -- nothing changes and no call is made; with a token that verifies, an event is handled in the
  -- name of the token's subject.
  handle_event_lem :
      (verify : String → Option String) (e : Fresh) (c : Socket) (event : ClientEvent) (s : Server)
      → (((t : String) → extract_token verify c ≡ some t → verify t ≡ none)
          → (is_ok (handle_event p verify e c event s).0 ≡ false)
            × ((handle_event p verify e c event s).1 ≡ s))
        × ((t v : String)
            → extract_token verify c ≡ some t
            → verify t ≡ some v
            → (t == "") ≡ false
            → handle_event p verify e c event s ≡ dispatch p e c v event s)
  unfolding handle_event
  handle_event_lem verify e c event s = (
    λ bad. elim (Option-cases (extract_token verify c)) [
      | inl missing ↦ (ground arith, ground arith)
      | inr (t, q) ↦ (ground (arith, bad t q), ground (arith, bad t q))
    ],
    λ t v q good here. ground arith,
  )

  -- Whoever asks to join a room's channel is put on it, taking part in the room or not; the
  -- request succeeds exactly for one who takes part, so that a stranger is answered with an error
  -- and stays on the channel.
  pub handle_join_room_first :
      (c : Socket) (user_id room_id : String) (s : Server)
      → ((handle_join_room p c user_id room_id s).1.calls
          ≡ join c.id (room_channel room_id) ∷ s.calls)
        × (is_ok (handle_join_room p c user_id room_id s).0 ≡ takes_part p room_id user_id s.world)
  unfolding handle_join_room
  handle_join_room_first c user_id room_id s =
      let (allowed, same, page) = get_messages_lem p user_id room_id none 50 s.world in
      (ground (arith, allowed, same), ground (arith, allowed, same))
