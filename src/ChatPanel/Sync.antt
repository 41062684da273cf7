-- ===== src/ChatPanel/Sync.antt =====
-- The panel against the server: what a user sees of a room is what the table of messages holds.
use talkertive_chat_app.Base.{
  String, false, ◌≡◌, refl, sym, ap, subst, ◌∙◌, none, some, List, [], ◌∷◌, ◌++◌, map, In, In-map,
  map-In, ◌==◌, string_eq, if◌then◌else◌, ◌⊎◌, inl, inr, arith, id_iff, Bool-cases, is_some,
}
use talkertive_chat_app.Schema.{Message}
use talkertive_chat_app.World.{World, Clients}
use talkertive_chat_app.Chat.{FullMessage, find_message}

-- A shown message is the stored one, in this room, with its text and its marks; of a deletion the
-- panel has a time of its own.
pub record Agrees (room_id : String) (x m : Message) : Type 0 where
  pub same_id : x.id ≡ m.id
  pub same_room : m.room_id ≡ room_id
  pub shown_room : x.room_id ≡ room_id
  pub sender : x.sender_id ≡ m.sender_id
  pub content : x.content ≡ m.content
  pub edited : x.is_edited ≡ m.is_edited
  pub deleted : is_some x.deleted_at ≡ is_some m.deleted_at
  pub created : x.created_at ≡ m.created_at

-- The list shows the messages of the room: each of them, and nothing else.
pub record Shows (p : Clients) (room_id : String) (w : World) (l : List FullMessage) : Type 0 where
  pub sound :
      (x : FullMessage)
      → In x l
      → (m : Message) × (find_message p x.message.id w ≡ some m) × Agrees room_id x.message m
  pub complete :
      (id : String) (m : Message)
      → find_message p id w ≡ some m
      → m.room_id ≡ room_id
      → (x : FullMessage) × In x l × (x.message.id ≡ id)

pub In-append_left : {A : Type 0} (a : A) (xs ys : List A) → In a xs → In a (xs ++ ys)
In-append_left a [] ys h = absurd h
In-append_left a (x ∷ xs) ys (inl e) = inl e
In-append_left a (x ∷ xs) ys (inr h) = inr (In-append_left a xs ys h)

pub In-append_right : {A : Type 0} (a : A) (xs ys : List A) → In a ys → In a (xs ++ ys)
In-append_right a [] ys h = h
In-append_right a (x ∷ xs) ys h = inr (In-append_right a xs ys h)

pub In-append_cases : {A : Type 0} (a : A) (xs ys : List A) → In a (xs ++ ys) → In a xs ⊎ In a ys
In-append_cases a [] ys h = inr h
In-append_cases a (x ∷ xs) ys (inl e) = inl (inl e)
In-append_cases a (x ∷ xs) ys (inr h) = elim (In-append_cases a xs ys h) [
  | inl k ↦ inl (inr k)
  | inr k ↦ inr k
]

module _ (p : Clients) (room_id : String) (w w' : World) (l : List FullMessage)
    (shows : Shows p room_id w l) where
  -- A step that leaves the messages alone.
  pub Shows-same : ((j : String) → find_message p j w' ≡ find_message p j w) → Shows p room_id w' l
  Shows-same same = record {
    sound =
        λ x i. let (m, found, agrees) = shows.sound x i in (m, same x.message.id ∙ found, agrees);
    complete = λ id m found here. shows.complete id m (sym (same id) ∙ found) here;
  }

  -- A step that stores a new message of the room, which the panel puts at the end.
  pub Shows-new :
      (x : FullMessage)
      → x.message.room_id ≡ room_id
      → find_message p x.message.id w ≡ none
      → ((j : String)
          → find_message p j w'
            ≡ (if x.message.id == j then some x.message else find_message p j w))
      → Shows p room_id w' (l ++ x ∷ [])
  Shows-new x here free stored = record {
    sound = λ y i. elim (In-append_cases y l (x ∷ []) i) [
      | inl old ↦
          let (m, found, agrees) = shows.sound y old in
          (m, ground (arith, stored y.message.id, id_iff x.message.id y.message.id), agrees)
      | inr (inl e) ↦
          subst
            (λ y.
              (m : Message) × (find_message p y.message.id w' ≡ some m)
              × Agrees room_id y.message m)
            e
            (
              x.message,
              ground (arith, stored x.message.id, id_iff x.message.id x.message.id),
              record {
                same_id = refl;
                same_room = here;
                shown_room = here;
                sender = refl;
                content = refl;
                edited = refl;
                deleted = refl;
                created = refl;
              },
            )
      | inr (inr h) ↦ absurd h
    ];
    complete = λ id m found hm. elim (Bool-cases (x.message.id == id)) [
      | inl same ↦ (x, In-append_right x l (x ∷ []) (inl refl), (id_iff x.message.id id).0 same)
      | inr other ↦
          let (y, i, e) = shows.complete id m (ground (arith, stored id)) hm in
          (y, In-append_left y l (x ∷ []) i, e)
    ];
  }

  -- A step that stores a message of another room.
  pub Shows-elsewhere :
      (x : Message)
      → (x.room_id == room_id) ≡ false
      → find_message p x.id w ≡ none
      → ((j : String) → find_message p j w' ≡ (if x.id == j then some x else find_message p j w))
      → Shows p room_id w' l
  Shows-elsewhere x apart free stored = record {
    sound = λ y i.
        let (m, found, agrees) = shows.sound y i in
        (m, ground (arith, stored y.message.id, id_iff x.id y.message.id), agrees);
    complete = λ id m found hm.
        shows.complete id m (ground (arith, stored id, id_iff x.room_id room_id)) hm;
  }

  -- A step that rewrites one message, and a change of the list that does the same.
  pub Shows-change :
      (id : String) (old new : Message) (f : FullMessage → FullMessage)
      → find_message p id w ≡ some old
      → new.id ≡ id
      → new.room_id ≡ old.room_id
      → ((j : String) → find_message p j w' ≡ (if id == j then some new else find_message p j w))
      → ((y : FullMessage) → (y.message.id == id) ≡ false → f y ≡ y)
      → ((y : FullMessage)
          → y.message.id ≡ id
          → Agrees room_id y.message old
          → Agrees room_id (f y).message new)
      → Shows p room_id w' (map f l)
  Shows-change id old new f stored same_id same_room written others changed = record {
    sound = λ y i.
        let (x, j, e) = In-map f y l i in
        let (m, found, agrees) = shows.sound x j in
        subst
          (λ y.
            (m : Message) × (find_message p y.message.id w' ≡ some m) × Agrees room_id y.message m)
          e
          (elim (Bool-cases (x.message.id == id)) [
            | inl hit ↦
                let at : x.message.id ≡ id = (id_iff x.message.id id).0 hit in
                let was : m ≡ old = ground arith in
                let now = changed x at (subst (λ m. Agrees room_id x.message m) was agrees) in
                (
                  new,
                  ground (arith, written (f x).message.id, now.same_id, id_iff id (f x).message.id),
                  now,
                )
            | inr miss ↦
                let kept = others x miss in
                subst
                  (λ y.
                    (m : Message) × (find_message p y.message.id w' ≡ some m)
                    × Agrees room_id y.message m)
                  (sym kept)
                  (
                    m,
                    ground (
                      arith,
                      written x.message.id,
                      id_iff id x.message.id,
                      id_iff x.message.id id,
                    ),
                    agrees,
                  )
          ]);
    complete = λ j m found hm. elim (Bool-cases (id == j)) [
      | inl hit ↦
          let (x, i, e) = shows.complete id old stored (ground (arith, written j)) in
          let (m', found', agrees) = shows.sound x i in
          let was : m' ≡ old = ground arith in
          let now = changed x e (subst (λ m. Agrees room_id x.message m) was agrees) in
          (f x, map-In f x l i, now.same_id ∙ same_id ∙ (id_iff id j).0 hit)
      | inr miss ↦
          let (x, i, e) = shows.complete j m (ground (arith, written j)) hm in
          let kept = others x (ground (arith, id_iff x.message.id id, id_iff id j)) in
          (f x, map-In f x l i, ap (λ y. y.message.id) kept ∙ e)
    ];
  }

  -- The same in another room, where the list stays.
  pub Shows-change_elsewhere :
      (id : String) (old new : Message)
      → find_message p id w ≡ some old
      → new.room_id ≡ old.room_id
      → (old.room_id == room_id) ≡ false
      → ((j : String) → find_message p j w' ≡ (if id == j then some new else find_message p j w))
      → Shows p room_id w' l
  Shows-change_elsewhere id old new stored same_room apart written = record {
    sound = λ x i.
        let (m, found, agrees) = shows.sound x i in
        let here = agrees.same_room in
        (
          m,
          ground (arith, written x.message.id, id_iff id x.message.id, id_iff m.room_id room_id),
          agrees,
        );
    complete = λ j m found hm.
        shows.complete j m
          (ground (arith, written j, id_iff new.room_id room_id, id_iff old.room_id room_id)) hm;
  }
