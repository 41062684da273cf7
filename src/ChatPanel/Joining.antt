-- ===== src/ChatPanel/Joining.antt =====
-- What the panel shows once it has joined its room.
use mathlib.Core.List.{reverse, reverse-cons}
use talkertive_chat_app.Base.{
  ℕ, ◌+◌, ◌≤◌, length, filter, String, Bool, true, ◌≡◌, refl, sym, ap, subst, ◌∙◌, List, [], ◌∷◌,
  ◌++◌, In, map-In, ◌==◌, string_eq, inl, inr, arith, id_iff, some, none, Option,
}
use talkertive_chat_app.Schema.{Message}
use talkertive_chat_app.World.{World, Clients, Fresh, ok}
use talkertive_chat_app.Chat.{
  FullMessage, find_message, full_message, get_messages, message_page, SendMessageDto, send_message,
  new_message as stored_message,
}
use talkertive_chat_app.Chat.Sending.{send_message_lem, send_message-message}
use talkertive_chat_app.Chat.Reading.{get_messages_lem, given-page}
use talkertive_chat_app.ChatPanel.{Panel, on_room_joined, on_new_message, emitting_read, last?}
use talkertive_chat_app.ChatPanel.Sync.{Shows, In-append_left, In-append_right, In-append_cases}

In-reverse : (x : FullMessage) (l : List FullMessage) → In x l → In x (reverse l)
In-reverse x [] h = h
In-reverse x (y ∷ ys) (inl e) =
    rw (reverse-cons y ys) (In-append_right x (reverse ys) (y ∷ []) (inl e))
In-reverse x (y ∷ ys) (inr h) =
    rw (reverse-cons y ys) (In-append_left x (reverse ys) (y ∷ []) (In-reverse x ys h))

In-reverse_back : (x : FullMessage) (l : List FullMessage) → In x (reverse l) → In x l
In-reverse_back x [] h = h
In-reverse_back x (y ∷ ys) h =
    elim (In-append_cases x (reverse ys) (y ∷ []) (rw (reverse-cons y ys) at h)) [
      | inl i ↦ inr (In-reverse_back x ys i)
      | inr (inl e) ↦ inl e
      | inr (inr i) ↦ absurd i
    ]

emitting_read-messages :
    (room_id : String) (m : Option FullMessage) (panel : Panel)
    → (emitting_read room_id m panel).messages ≡ panel.messages
emitting_read-messages room_id none panel = refl
emitting_read-messages room_id (some m) panel = ground arith

joined-messages :
    (room_id : String) (l : List FullMessage) (panel : Panel)
    → (on_room_joined room_id l panel).messages ≡ reverse l
unfolding on_room_joined
joined-messages room_id l panel = emitting_read-messages room_id (last? (reverse l)) _

module _ (p : Clients) where
  -- The panel of one who joins a room of at most fifty messages shows exactly the room's stored
  -- messages, whatever it has shown before.
  pub on_room_joined-Shows :
      (user_id room_id : String) (w : World) (l : List FullMessage) (panel : Panel)
      → p.message.count (λ m. m.room_id == room_id) w.messages ≤ 50
      → (get_messages p user_id room_id none 50 w).0 ≡ ok l
      → Shows p room_id w (on_room_joined room_id l panel).messages
  on_room_joined-Shows user_id room_id w l panel few given =
      let (size, facts) = (get_messages_lem p user_id room_id none 50 w).2 l given in
      let q : Message → Bool = λ m. m.room_id == room_id in
      rw (joined-messages room_id l panel) (record {
        sound = λ x i.
            let (found, here, same) = facts x (In-reverse_back x l i) in
            (
              x.message,
              found,
              record {
                same_id = refl;
                same_room = here;
                shown_room = here;
                sender = refl;
                content = refl;
                edited = refl;
                deleted = refl;
                created = refl;
              },
            );
        complete = λ id m found here.
            let key = p.message.find-key found in
            let listed : In m (p.message.find_many q w.messages) =
              (p.message.In-find_many q w.messages m).1 (
                subst (λ k. find_message p k w ≡ some m) (sym key) found,
                (id_iff m.room_id room_id).1 here,
              ) in
            let paged =
              p.message.In-find_page_fits (message_page p none 50).order q w.messages 50 m few
                listed in
            (
              full_message p m w,
              In-reverse (full_message p m w) l (
                  rw (given-page p user_id room_id none 50 w l given)
                    (map-In (λ m. full_message p m w) m _ paged)),
              key,
            );
      })

  -- How often the panel shows a message.
  abbrev pub times_shown : String → List FullMessage → ℕ
  times_shown id l = length (filter (λ y. y.message.id == id) l)

  times_shown-append :
      (id : String) (xs ys : List FullMessage)
      → times_shown id (xs ++ ys) ≡ times_shown id xs + times_shown id ys
  times_shown-append id [] ys = ground arith
  times_shown-append id (x ∷ xs) ys = ground (arith, times_shown-append id xs ys)

  times_shown-In :
      (id : String) (x : FullMessage) (l : List FullMessage)
      → In x l
      → x.message.id ≡ id
      → 1 ≤ times_shown id l
  times_shown-In id x [] h e = absurd h
  times_shown-In id x (y ∷ ys) (inl same) e =
      let hit : (y.message.id == id) ≡ true =
        (id_iff y.message.id id).1 (ap (λ z. z.message.id) same ∙ e) in
      ground arith
  times_shown-In id x (y ∷ ys) (inr h) e = ground (arith, times_shown-In id x ys h e)

  new-messages :
      (room_id : String) (x : FullMessage) (panel : Panel)
      → (on_new_message room_id x panel).messages ≡ panel.messages ++ x ∷ []
  unfolding on_new_message
  new-messages room_id x panel = ground arith

  -- A message that is stored before a user who joins reads the room's messages, at most fifty of
  -- them, and announced after they have been handed over, is shown more than once.
  pub on_new_message-twice :
      (e : Fresh) (sender user_id : String) (d : SendMessageDto) (w : World) (x : FullMessage)
      (l : List FullMessage) (panel : Panel)
      → (send_message p e sender d w).0 ≡ ok x
      → let w' = (send_message p e sender d w).1 in
        p.message.count (λ m. m.room_id == d.room_id) w'.messages ≤ 50
        → (get_messages p user_id d.room_id none 50 w').0 ≡ ok l
        → 2
          ≤ times_shown e.id
              (on_new_message d.room_id x (on_room_joined d.room_id l panel)).messages
  on_new_message-twice e sender user_id d w x l panel sent few given =
      let w' = (send_message p e sender d w).1 in
      let joined = on_room_joined d.room_id l panel in
      let shows = on_room_joined-Shows user_id d.room_id w' l panel few given in
      let (free, stored) = (send_message_lem p e sender e.id d w).2 (ground arith) in
      let (y, i, at) =
        shows.complete e.id (stored_message e sender d) (ground (arith, id_iff e.id e.id)) refl in
      let same : x.message.id ≡ e.id =
        ap (λ m. m.id) (send_message-message p e sender d w x sent) in
      let once : 1 ≤ times_shown e.id joined.messages =
        times_shown-In e.id y joined.messages i at in
      let again : 1 ≤ times_shown e.id (x ∷ []) = times_shown-In e.id x (x ∷ []) (inl refl) same in
      rw (new-messages d.room_id x joined, times_shown-append e.id joined.messages (x ∷ []))
        (omega arith)
