-- ===== src/Rooms/Deletion.antt =====
-- Which requests delete a room, and what goes with it.
use talkertive_chat_app.Base.{
  String, Bool, true, false, ◌&&◌, ◌≡◌, ap, Eq, List, none, some, arith, id_iff, is_some, ◌==◌,
  string_eq, inl, inr, Option-cases, pair_eq,
}
use talkertive_chat_app.Schema.{Message, RoomSchedule}
use talkertive_chat_app.Prisma.{Delegate}
use talkertive_chat_app.World.{World, Clients, is_ok, delete_room_row, of_room}
use talkertive_chat_app.RoomMembers.{find_member}
use talkertive_chat_app.Rooms.{delete_direct_room}

-- No row of this room is left: not the room, nor a member, a message, a schedule or a like.
abbrev pub IsErased : (p : Clients) → String → World → Type 0
IsErased p room_id w =
    (p.room.find_unique room_id w.rooms ≡ none)
    × ((v : String) → find_member p room_id v w ≡ none)
    × ((id : String) (m : Message)
        → p.message.find_unique id w.messages ≡ some m
        → (m.room_id == room_id) ≡ false)
    × ((id : String) (s : RoomSchedule)
        → p.schedule.find_unique id w.schedules ≡ some s
        → (s.room_id == room_id) ≡ false)
    × ((v : String) → p.like.find_unique (room_id, v) w.likes ≡ none)

module _ {Row Key : Type 0} ⦃e : Eq Key⦄ {key : Row → Key} (d : Delegate key) (q : Row → Bool)
    (t : List Row) where
  pub delete_many-find :
      (k : Key) (r : Row) → d.find_unique k (d.delete_many q t) ≡ some r → q r ≡ false
  delete_many-find k r h = elim (Option-cases (d.find_unique k t)) [
    | inl missing ↦ ground (arith, d.find-delete_many q t k)
    | inr (r', found) ↦ ground (arith, d.find-delete_many q t k)
  ]

  pub delete_many-find_none :
      (k : Key)
      → ((r : Row) → d.find_unique k t ≡ some r → q r ≡ true)
      → d.find_unique k (d.delete_many q t) ≡ none
  delete_many-find_none k hit = elim (Option-cases (d.find_unique k t)) [
    | inl missing ↦ ground (arith, d.find-delete_many q t k)
    | inr (r, found) ↦ ground (arith, d.find-delete_many q t k, hit r found)
  ]

module _ (p : Clients) where
  pub delete_room_row-IsErased :
      (room_id : String) (w : World)
      → is_ok (delete_room_row p room_id w).0 ≡ true
      → IsErased p room_id (delete_room_row p room_id w).1
  unfolding delete_room_row
  delete_room_row-IsErased room_id w done =
      elim (Option-cases (p.room.find_unique room_id w.rooms)) [
        | inl missing ↦ ground arith
        | inr (room, q) ↦
            rw (delete_room_row, q)
              (
                ground (arith, p.room.find-delete room_id w.rooms room_id, id_iff room_id room_id),
                λ v.
                    delete_many-find_none p.room_member (λ m. m.room_id == room_id) w.room_members
                      (room_id, v)
                      (λ m h.
                        (id_iff m.room_id room_id).1 (ap (λ k. k.0) (p.room_member.find-key h))),
                λ id m. delete_many-find p.message (of_room p room_id) w.messages id m,
                λ id s. delete_many-find p.schedule (λ s. s.room_id == room_id) w.schedules id s,
                λ v.
                    delete_many-find_none p.like (λ l. l.room_id == room_id) w.likes (room_id, v)
                      (λ l h. (id_iff l.room_id room_id).1 (ap (λ k. k.0) (p.like.find-key h))),
              )
      ]

  direct_writes :
      (user_id room_id : String) (w : World)
      → is_ok (delete_direct_room p user_id room_id w).0 ≡ true
      → (is_ok (delete_room_row p room_id w).0 ≡ true)
        × ((delete_direct_room p user_id room_id w).1 ≡ (delete_room_row p room_id w).1)
  unfolding delete_direct_room
  direct_writes user_id room_id w done = ground arith

  -- A request to delete a direct room succeeds exactly where the room exists, of whatever kind,
  -- and the user has a row among its members, whatever its role and even after leaving. Every row
  -- of the room is then gone.
  pub delete_direct_room_iff :
      (user_id room_id : String) (w : World)
      → (is_ok (delete_direct_room p user_id room_id w).0 ≡ (
          is_some (find_member p room_id user_id w)
          && is_some (p.room.find_unique room_id w.rooms)))
        × (is_ok (delete_direct_room p user_id room_id w).0 ≡ true
            → IsErased p room_id (delete_direct_room p user_id room_id w).1)
  unfolding delete_direct_room
  delete_direct_room_iff user_id room_id w = (
    ground arith,
    λ done.
        let (went, same) = direct_writes user_id room_id w done in
        rw same (delete_room_row-IsErased room_id w went),
  )
