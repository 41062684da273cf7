-- ===== src/MyRooms/Updates.antt =====
-- What an event does to the list of rooms that a client keeps.
use talkertive_chat_app.Base.{
  ◌+◌, String, ◌≡◌, ◌↔◌, Option, some, List, map, In, In-map, map-In, In-sort, ◌==◌, string_eq,
  if◌then◌else◌, IsSorted, sort-IsSorted, descending, descending-IsOrder, subst,
}
use talkertive_chat_app.MyRooms.{
  MyRoom, Payload, handle_room_list_updated, updated, last_time, is_user,
}

-- After an event the client's list is sorted by the last message, the newest first, and holds the
-- rooms that it held: the room of the event with the new last message and one more unread unless
-- the message is the client's own, the others as they were.
handle_room_list_updated_lem :
    (current : Option String) (e : Payload) (rooms : List MyRoom)
    → IsSorted (descending last_time) (handle_room_list_updated current e rooms)
      × ((x : MyRoom)
          → In x (handle_room_list_updated current e rooms) ↔ (
              (r : MyRoom) × In r rooms
              × ((if r.id == e.room_id
                    then record r {
                      last_message = some e.last_message;
                      unread_count =
                          if is_user current e.last_message.sender_id
                          then r.unread_count
                          else r.unread_count + 1;
                    }
                    else r)
                  ≡ x)))
unfolding handle_room_list_updated
handle_room_list_updated_lem current e rooms = (
  sort-IsSorted (descending last_time) (descending-IsOrder last_time)
      (map (updated current e) rooms),
  λ x. (
    λ h.
        In-map (updated current e) x rooms
          ((In-sort (descending last_time) (map (updated current e) rooms) x).0 h),
    λ (r, i, q). (In-sort (descending last_time) (map (updated current e) rooms) x).1 (
        subst (λ y. In y (map (updated current e) rooms)) q (map-In (updated current e) r rooms i)),
  ),
)
