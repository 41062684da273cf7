-- ===== src/Sidebar/Opening.antt =====
-- The way from a member of a room to the panel of a direct chat: the panel's request, and what the
-- sidebar makes of the answer.
use talkertive_chat_app.Base.{
  String, true, false, ◌≡◌, refl, ap, ◌∙◌, sym, subst, none, some, List, In, In-map, map-In,
  In-find, find-In, find, arith, id_iff, ◌==◌, string_eq, if◌then◌else◌, inl, inr, Option-cases,
  Bool-cases,
}
use talkertive_chat_app.Schema.{Room}
use talkertive_chat_app.World.{World, Clients, Fresh}
use talkertive_chat_app.RoomMembers.Outcomes.{takes_part}
use talkertive_chat_app.Rooms.Queries.{find_my_rooms, my_room, takes_part_in}
use talkertive_chat_app.Rooms.MyRooms.{find_my_rooms_lem}
use talkertive_chat_app.ChatPanel.DirectChat.{
  handle_open_direct_chat, handle_open_direct_chat-IsDirectChat, IsDirectChat,
}
use talkertive_chat_app.MyRooms.{MyRoom, mark_room_as_read}
use talkertive_chat_app.Sidebar.{
  Sidebar, listed, fetch_rooms, fetched, select_pending, handle_navigate_to_room,
  handle_room_select,
}

-- A pending room that the list has is opened.
select_pending-found :
    (s : Sidebar) (id : String) (x : MyRoom)
    → s.pending_room_id ≡ some id
    → (id == "") ≡ false
    → find (λ (r : MyRoom). r.id == id) s.rooms ≡ some x
    → select_pending s ≡ record (handle_room_select x s) { pending_room_id = none }
unfolding select_pending
select_pending-found s id x pending full found = ground (arith, pending, full, found)

read-zero :
    (id : String) (l : List MyRoom) (y : MyRoom)
    → In y (mark_room_as_read id l)
    → y.id ≡ id
    → y.unread_count ≡ 0
unfolding mark_room_as_read
read-zero id l y h here =
    let read = λ (r : MyRoom). if r.id == id then record r { unread_count = 0 } else r in
    let (z, i, same) = In-map read y l h in ground (arith, same, id_iff z.id id)

module _ (p : Clients) where
  listed-In :
      (u : String) (w : World) (r : Room)
      → p.room.find_unique r.id w.rooms ≡ some r
      → takes_part p r.id u w ≡ true
      → (s : Sidebar) → In (listed (my_room p u w r)) (fetch_rooms p (some u) w s.rooms)
  unfolding fetch_rooms
  listed-In u w r stored there s =
      let here : takes_part_in p u w r ≡ true = ground (arith, there) in
      map-In listed (my_room p u w r) (find_my_rooms p u w)
        (((find_my_rooms_lem p u w).1 (my_room p u w r)).1 (r, stored, here, refl))

  -- Opening a pending room changes no room's identifier.
  select_pending-In :
      (s : Sidebar) (z : MyRoom)
      → In z s.rooms
      → (y : MyRoom) × In y (select_pending s).rooms × (y.id ≡ z.id)
  unfolding select_pending mark_room_as_read
  select_pending-In s z i = elim (Option-cases s.pending_room_id) [
    | inl nothing ↦ (z, rw nothing i, refl)
    | inr (id, pending) ↦ elim (Bool-cases (id == "")) [
      | inl empty ↦ (z, rw (pending, empty) i, refl)
      | inr full ↦ elim (Option-cases (find (λ (r : MyRoom). r.id == id) s.rooms)) [
        | inl missing ↦ (z, rw (pending, full, missing) i, refl)
        | inr (x, found) ↦
            let read = λ (r : MyRoom). if r.id == x.id then record r { unread_count = 0 } else r in
            (read z, rw (pending, full, found) (map-In read z s.rooms i), ground arith)
      ]
    ]
  ]

  -- Where the way to a direct chat ends at a room: both take part in this direct room, the sidebar
  -- opens its panel and waits for no other room, and the list counts nothing unread in it.
  pub handle_navigate_to_room_lem :
      (e : Fresh) (u t id : String) (s : Sidebar) (w : World)
      → let (res, w') = handle_open_direct_chat p e u t w in
        let s' = handle_navigate_to_room p (some u) w' id s in
        res ≡ some id
        → (id == "") ≡ false
        → (x : MyRoom) × (s'.selected_room ≡ some x)
          × (x.id ≡ id)
          × (s'.pending_room_id ≡ none)
          × ((y : MyRoom) → In y s'.rooms → y.id ≡ id → y.unread_count ≡ 0)
          × IsDirectChat p id u t w'
  unfolding handle_navigate_to_room mark_room_as_read
  handle_navigate_to_room_lem e u t id s w goes full =
      let w' = (handle_open_direct_chat p e u t w).1 in
      let chat = handle_open_direct_chat-IsDirectChat p e u t id w goes in
      let (r, stored, direct, mine, theirs) = chat in
      let name : r.id ≡ id = p.room.find-key stored in
      let stored' = ap (λ k. p.room.find_unique k w'.rooms) name ∙ stored in
      let mine' = ap (λ k. takes_part p k u w') name ∙ mine in
      let before = record s { rooms = fetch_rooms p (some u) w' s.rooms } in
      let (z, i, same) =
        select_pending-In before (listed (my_room p u w' r)) (listed-In u w' r stored' mine' s) in
      let now = record (fetched p (some u) w' s) { pending_room_id = some id } in
      let (x, found) =
        In-find (λ (y : MyRoom). y.id == id) z now.rooms i
          (ground (arith, id_iff z.id id, same, name)) in
      let (_, it) = find-In (λ (y : MyRoom). y.id == id) x now.rooms found in
      let ends = select_pending-found now id x refl full found in
      let opened : x.id ≡ id = (id_iff x.id id).0 it in
      (
        x,
        ap (λ (k : Sidebar). k.selected_room) ends,
        opened,
        ap (λ (k : Sidebar). k.pending_room_id) ends,
        λ y j it'.
            read-zero x.id now.rooms y
              (subst (λ (l : List MyRoom). In y l) (ap (λ (k : Sidebar). k.rooms) ends) j)
              (it' ∙ sym opened),
        chat,
      )
