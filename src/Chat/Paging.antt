-- ===== src/Chat/Paging.antt =====
-- How the pages of `ChatService.getMessages` follow one another.
use talkertive_chat_app.Base.{
  ℕ, zero, suc, String, Bool, true, false, ◌≡◌, refl, sym, ap, ◌∙◌, some, none, List, [], ◌∷◌, ◌++◌,
  map, take, In, ◌==◌, string_eq, arith, id_iff, descending, Option,
}
use talkertive_chat_app.Schema.{Message}
use talkertive_chat_app.Prisma.{whole}
use talkertive_chat_app.World.{World, Clients, ok}
use talkertive_chat_app.RoomMembers.Outcomes.{takes_part}
use talkertive_chat_app.Chat.{
  get_messages, FullMessage, full_message, find_message, message_page, given_cursor,
}

map-take : {A B : Type 0} (f : A → B) (n : ℕ) (xs : List A) → map f (take n xs) ≡ take n (map f xs)
map-take f zero xs = refl
map-take f (suc n) [] = refl
map-take f (suc n) (x ∷ xs) = ap (λ t. f x ∷ t) (map-take f n xs)

map-split :
    {A B : Type 0} (f : A → B) (l : List A) (xs : List B) (y : B) (ys : List B)
    → map f l ≡ xs ++ y ∷ ys
    → (before : List A) × (a : A) × (bs : List A) × (l ≡ before ++ a ∷ bs)
      × (f a ≡ y)
      × (map f bs ≡ ys)
map-split f [] [] y ys h = absurd cc
map-split f [] (x ∷ xs) y ys h = absurd cc
map-split f (a ∷ l) [] y ys h = ([], a, l, refl, cc, cc)
map-split f (a ∷ l) (x ∷ xs) y ys h =
    let (before, b, bs, split, at, rest) = map-split f l xs y ys cc in
    (a ∷ before, b, bs, ap (λ t. a ∷ t) split, at, rest)

module _ (p : Clients) where
  abbrev latest_first : Message → Message → Bool
  latest_first = descending (λ (m : Message). m.created_at)

  abbrev of_room : String → Message → Bool
  of_room room_id m = m.room_id == room_id

  -- All the messages of a room, the latest first.
  abbrev pub history : String → World → List FullMessage
  history room_id w =
      map (λ m. full_message p m w)
        (p.message.find_page (whole latest_first) (of_room room_id) w.messages)

  answer :
      (u room_id : String) (c : Option String) (n : ℕ) (w : World)
      → takes_part p room_id u w ≡ true
      → (get_messages p u room_id c n w).0
        ≡ ok (
            map
              (λ m. full_message p m w)
              (p.message.find_page
                (message_page p (given_cursor p c) n)
                (of_room room_id)
                w.messages))
  unfolding get_messages
  answer u room_id c n w part = ground arith

  -- For one who takes part in a room, no two of whose messages were sent at one time, a request
  -- without a cursor is answered with the latest messages, and one with the identifier of a message
  -- as its cursor, which is not the empty text, with the messages directly before it, in either
  -- case as many as were asked for or as there are.
  pub get_messages-take :
      (u room_id : String) (n : ℕ) (w : World)
      → takes_part p room_id u w ≡ true
      → ((a b : Message)
          → find_message p a.id w ≡ some a
          → find_message p b.id w ≡ some b
          → a.room_id ≡ room_id
          → b.room_id ≡ room_id
          → a.created_at ≡ b.created_at
          → a ≡ b)
      → ((get_messages p u room_id none n w).0 ≡ ok (take n (history room_id w)))
        × ((xs : List FullMessage) (m : FullMessage) (ys : List FullMessage)
            → history room_id w ≡ xs ++ m ∷ ys
            → (m.message.id == "") ≡ false
            → (get_messages p u room_id (some m.message.id) n w).0 ≡ ok (take n ys))
  get_messages-take u room_id n w part apart =
      let q = of_room room_id in
      let full : Message → FullMessage = λ m. full_message p m w in
      let all = p.message.find_page (whole latest_first) q w.messages in
      let strict : (r s : Message)
          → In r (p.message.find_many q w.messages)
          → In s (p.message.find_many q w.messages)
          → latest_first r s ≡ true
          → latest_first s r ≡ true
          → r ≡ s =
        λ r s i j a b.
          let (found, here) = (p.message.In-find_many q w.messages r).0 i in
          let (found', here') = (p.message.In-find_many q w.messages s).0 j in
          apart r s found found' ((id_iff r.room_id room_id).0 here)
            ((id_iff s.room_id room_id).0 here') (ground arith) in
      (
        answer u room_id none n w part
            ∙ ap (λ l. ok (map full l))
                (p.message.find_page_head latest_first q w.messages n strict)
            ∙ ap ok (map-take full n all),
        λ xs m ys split named.
            let (before, a, bs, at, is, rest) = map-split full all xs m ys split in
            let key : m.message.id ≡ a.id = ap (λ x. x.message.id) (sym is) in
            let cursor : given_cursor p (some m.message.id) ≡ some a.id = ground (arith, key) in
            answer u room_id (some m.message.id) n w part
            ∙ ap (λ c. ok (map full (p.message.find_page (message_page p c n) q w.messages))) cursor
            ∙ ap (λ l. ok (map full l))
                (p.message.find_page_after latest_first q w.messages n before a bs strict at)
            ∙ ap ok (map-take full n bs ∙ ap (take n) rest),
      )
