-- ===== src/Rooms/MyRooms.antt =====
-- Which rooms a user is shown, and in which order.
use talkertive_chat_app.Base.{
  String, true, ◌≡◌, ◌↔◌, some, map, In, In-map, map-In, In-sort, sort-IsSorted, IsSorted,
  descending, descending-IsOrder, subst,
}
use talkertive_chat_app.Schema.{Room}
use talkertive_chat_app.World.{World, Clients}
use talkertive_chat_app.Rooms.Queries.{MyRoom, find_my_rooms, my_room, takes_part_in, last_time}

module _ (p : Clients) where
  -- A user's rooms are those in which the user takes part, all of them and no other, each as it
  -- then is, the one with the newest message first.
  pub find_my_rooms_lem :
      (user_id : String) (w : World)
      → IsSorted (descending last_time) (find_my_rooms p user_id w)
        × ((x : MyRoom)
            → In x (find_my_rooms p user_id w) ↔ (
                (r : Room) × (p.room.find_unique r.id w.rooms ≡ some r)
                × (takes_part_in p user_id w r ≡ true)
                × (my_room p user_id w r ≡ x)))
  unfolding find_my_rooms
  find_my_rooms_lem user_id w =
      let q = takes_part_in p user_id w in
      let found = p.room.find_many q w.rooms in
      let show = my_room p user_id w in
      (
        sort-IsSorted (descending last_time) (descending-IsOrder last_time) (map show found),
        λ x. (
          λ h.
              let (r, i, e) =
                In-map show x found ((In-sort (descending last_time) (map show found) x).0 h) in
              let (stored, takes_part) = (p.room.In-find_many q w.rooms r).0 i in
              (r, stored, takes_part, e),
          λ (r, stored, takes_part, e). (In-sort (descending last_time) (map show found) x).1 (
              subst (λ y. In y (map show found)) e
                (map-In show r found ((p.room.In-find_many q w.rooms r).1 (stored, takes_part)))),
        ),
      )
