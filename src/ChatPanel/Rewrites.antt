-- ===== src/ChatPanel/Rewrites.antt =====
-- The panel hears of an edit or a deletion that the gateway has carried out.
use talkertive_chat_app.Base.{
  ℕ, String, false, ◌≡◌, refl, sym, ap, subst, ◌∙◌, some, [], ◌∷◌, map, ◌==◌, string_eq,
  if◌then◌else◌, inl, inr, arith, id_iff, Bool-cases,
}
use talkertive_chat_app.Schema.{Message}
use talkertive_chat_app.World.{World, Clients, Fresh}
use talkertive_chat_app.Chat.{
  FullMessage, find_message, edit_message, delete_message, edit, soft_delete,
}
use talkertive_chat_app.Chat.Messages.{
  edit_message_writes, delete_message_writes, edit_message-message, delete_message-message,
}
use talkertive_chat_app.Chat.Gateway.{
  Server, ServerEvent, Call, emit, room_channel, message_edited, message_deleted,
  handle_edit_message, handle_delete_message,
}
use talkertive_chat_app.ChatPanel.{Panel, hear, hear_all, on_event, replace_message, mark_deleted}
use talkertive_chat_app.ChatPanel.Channels.{hear-emit}
use talkertive_chat_app.ChatPanel.Sync.{
  Agrees, Shows, Shows-same, Shows-change, Shows-change_elsewhere,
}
use talkertive_chat_app.ChatPanel.Effects.{silent, edit-effect, delete-effect}

module _ (p : Clients) (room_id : String) (now : ℕ) (own : String) where
  -- What the panel shows after it has heard what the server says.
  abbrev pub ShowsAfter : Server → Panel → Type 0
  ShowsAfter s l = Shows p room_id s.world (hear_all room_id now own s.calls l).messages

  pub hear_all-one :
      (c : Call) (l : Panel) → hear_all room_id now own (c ∷ []) l ≡ hear room_id now own c l
  unfolding hear_all
  hear_all-one c l = refl

  pub hear_all-none : (l : Panel) → hear_all room_id now own [] l ≡ l
  unfolding hear_all
  hear_all-none l = refl

  pub edited-messages :
      (x : FullMessage) (l : Panel)
      → (on_event room_id now (message_edited x) l).messages ≡ map (replace_message x) l.messages
  unfolding on_event
  edited-messages x l = refl

  pub deleted-messages :
      (id r : String) (l : Panel)
      → (on_event room_id now (message_deleted id r) l).messages
        ≡ map (mark_deleted now id) l.messages
  unfolding on_event
  deleted-messages id r l = refl

  edited-Agrees :
      (id : String) (x y : FullMessage) (m : Message) (content : String)
      → x.message ≡ edit content m
      → x.message.id ≡ id
      → y.message.id ≡ id
      → Agrees room_id y.message m
      → Agrees room_id (replace_message x y).message x.message
  edited-Agrees id x y m content made at hit agrees =
      let here : x.message.room_id ≡ room_id = ap (λ m. m.room_id) made ∙ agrees.same_room in
      let hears : replace_message x y ≡ x = ground (arith, id_iff y.message.id x.message.id) in
      subst (λ z. Agrees room_id z.message x.message) (sym hears)
        (record {
          same_id = refl;
          same_room = here;
          shown_room = here;
          sender = refl;
          content = refl;
          edited = refl;
          deleted = refl;
          created = refl;
        })

  deleted-Agrees :
      (t : ℕ) (id : String) (x : Message) (y : FullMessage) (m : Message)
      → x ≡ soft_delete t m
      → x.id ≡ id
      → y.message.id ≡ id
      → Agrees room_id y.message m
      → Agrees room_id (mark_deleted now x.id y).message x
  deleted-Agrees t id x y m made at hit agrees =
      let now_marked : mark_deleted now x.id y
          ≡ record y { message = record y.message { deleted_at = some now } } =
        ground (arith, id_iff y.message.id x.id) in
      rw (now_marked, made)
        (record {
          same_id = agrees.same_id;
          same_room = agrees.same_room;
          shown_room = agrees.shown_room;
          sender = agrees.sender;
          content = agrees.content;
          edited = agrees.edited;
          deleted = refl;
          created = agrees.created;
        })

  -- One announcement to the room of a rewritten message.
  rewritten-Shows :
      (w w' : World) (l : Panel) (id : String) (old new : Message) (e : ServerEvent)
      (f : FullMessage → FullMessage)
      → Shows p room_id w l.messages
      → find_message p id w ≡ some old
      → new.id ≡ id
      → new.room_id ≡ old.room_id
      → ((j : String) → find_message p j w' ≡ (if id == j then some new else find_message p j w))
      → (on_event room_id now e l).messages ≡ map f l.messages
      → ((y : FullMessage) → (y.message.id == id) ≡ false → f y ≡ y)
      → ((y : FullMessage)
          → y.message.id ≡ id
          → Agrees room_id y.message old
          → Agrees room_id (f y).message new)
      → ShowsAfter (record { world = w'; calls = emit (room_channel new.room_id) e ∷ [] }) l
  rewritten-Shows w w' l id old new e f shows stored same_id same_room written told others changed =
      rw
        (
          hear_all-one (emit (room_channel new.room_id) e) l,
          hear-emit room_id now own new.room_id e l,
        )
        (elim (Bool-cases (new.room_id == room_id)) [
          | inl here ↦
              rw (here, told)
                (Shows-change p room_id w w' l.messages shows id old new f stored same_id same_room
                  written others changed)
          | inr apart ↦ rw apart (
              Shows-change_elsewhere p room_id w w' l.messages shows id old new stored same_room
                (ground arith) written)
        ])

  pub edit-Shows :
      (user_id message_id content : String) (w : World) (l : Panel)
      → Shows p room_id w l.messages
      → ShowsAfter (handle_edit_message p user_id message_id content (silent w)).1 l
  edit-Shows user_id message_id content w l shows =
      let w' = (edit_message p user_id message_id content w).1 in
      elim (edit-effect p user_id message_id content (silent w)) [
        | inl (failed, same) ↦
            subst (λ s. ShowsAfter s l) (sym same)
              (rw (hear_all-none l) (
                Shows-same p room_id w w' l.messages shows
                  (λ j. ground (arith, edit_message_writes p user_id message_id content j w))))
        | inr (x, done, said) ↦
            let (m, found, alive, made, bare) =
              edit_message-message p user_id message_id content w x done in
            let key = p.message.find-key found in
            let stored : (j : String)
                → find_message p j w'
                  ≡ (if message_id == j then some x.message else find_message p j w) =
              λ j. ground (
                arith,
                edit_message_writes p user_id message_id content j w,
                id_iff message_id j,
              ) in
            let id : x.message.id ≡ message_id = ap (λ m. m.id) made ∙ key in
            subst (λ s. ShowsAfter s l) (sym said)
              (rewritten-Shows w w' l message_id m x.message (message_edited x) (replace_message x)
                shows found id (ap (λ m. m.room_id) made) stored (edited-messages x l)
                (λ y miss. ground arith)
                (λ y hit agrees. edited-Agrees message_id x y m content made id hit agrees))
      ]

  pub delete-Shows :
      (e : Fresh) (user_id message_id : String) (w : World) (l : Panel)
      → Shows p room_id w l.messages
      → ShowsAfter (handle_delete_message p e user_id message_id (silent w)).1 l
  delete-Shows e user_id message_id w l shows =
      let w' = (delete_message p e user_id message_id w).1 in
      elim (delete-effect p e user_id message_id (silent w)) [
        | inl (failed, same) ↦
            subst (λ s. ShowsAfter s l) (sym same)
              (rw (hear_all-none l) (
                Shows-same p room_id w w' l.messages shows
                  (λ j. ground (arith, delete_message_writes p e user_id message_id j w))))
        | inr (x, done, said) ↦
            let (m, found, made) = delete_message-message p e user_id message_id w x done in
            let key = p.message.find-key found in
            let stored : (j : String)
                → find_message p j w' ≡ (if message_id == j then some x else find_message p j w) =
              λ j.
                ground
                  (arith, delete_message_writes p e user_id message_id j w, id_iff message_id j) in
            let id : x.id ≡ message_id = ap (λ m. m.id) made ∙ key in
            subst (λ s. ShowsAfter s l) (sym said)
              (rewritten-Shows w w' l message_id m x (message_deleted x.id x.room_id)
                (mark_deleted now x.id) shows found id (ap (λ m. m.room_id) made) stored
                (deleted-messages x.id x.room_id l) (λ y miss. ground arith)
                (λ y hit agrees. deleted-Agrees e.now message_id x y m made id hit agrees))
      ]
