-- ===== src/ChatPanel/DirectChat.antt =====
-- frontend/components/ChatPanel.tsx, `handleOpenDirectChat`, with the two requests that it sends: it
-- asks for a direct room and, where there is one already, looks for it among the user's rooms.
use talkertive_chat_app.Base.{
  find-In, String, Bool, true, false, ◌&&◌, ◌≡◌, refl, sym, ap, subst, Option, none, some, is_some,
  In-map, find, ◌==◌, string_eq, pair_eq, if◌then◌else◌, inl, inr, ◌⊎◌, arith, id_iff, Option-cases,
}
use talkertive_chat_app.Schema.{Room, RoomMember, member}
use talkertive_chat_app.World.{
  World, Clients, Fresh, Exception, ok, err, conflict, is_ok, create_room, create_member,
  UserSummary,
}
use talkertive_chat_app.World.Keeps.{Result-cases}
use talkertive_chat_app.RoomMembers.{find_member, new_member, is_active_in}
use talkertive_chat_app.RoomMembers.Outcomes.{takes_part}
use talkertive_chat_app.Rooms.{create_direct_room, direct_room, child}
use talkertive_chat_app.Rooms.Kinds.{is_direct}
use talkertive_chat_app.Rooms.Queries.{
  MyRoom, find_my_rooms, my_room, takes_part_in, with_user, active_members_of,
}
use talkertive_chat_app.Rooms.MyRooms.{find_my_rooms_lem}

-- `res.status === 409`
abbrev pub is_conflict : Exception → Bool
is_conflict (conflict message) = true
is_conflict _ = false

abbrev pub is_direct_with : String → MyRoom → Bool
is_direct_with target r =
    is_direct r.room.type
    && is_some (find (λ (m : RoomMember × Option UserSummary). m.0.user_id == target) r.members)

abbrev pub id_of : Option MyRoom → Option String
id_of none = none
id_of (some r) = some r.room.id

module _ (p : Clients) where
  -- The room that the panel goes to, if any.
  unfoldable pub handle_open_direct_chat : Fresh → String → String → World → Option String × World
  handle_open_direct_chat e user_id target w =
      let (r, w') = create_direct_room p e user_id target w in
      elim r [
        | ok room ↦ (some room.id, w')
        | err x ↦ (
          if is_conflict x
              then id_of (find (is_direct_with target) (find_my_rooms p user_id w'))
              else none,
          w',
        )
      ]

  create_direct_room_writes :
      (e : Fresh) (u t : String) (w : World)
      → let (res, w') = create_direct_room p e u t w in
        let one = new_member (child e 0) e.id u none member in
        let two = new_member (child e 1) e.id t none member in
        ((is_ok res ≡ false) × (w' ≡ w))
        ⊎ (res ≡ ok (direct_room e))
          × (p.room.admits (direct_room e) w.rooms ≡ true)
          × (p.room_member.admits one w.room_members ≡ true)
          × (p.room_member.admits two (p.room_member.create one w.room_members) ≡ true)
          × (w'.rooms ≡ p.room.create (direct_room e) w.rooms)
          × (w'.room_members ≡ p.room_member.create two (p.room_member.create one w.room_members))
  unfolding create_direct_room create_room create_member
  create_direct_room_writes e u t w = ground arith

  -- A direct room in which both take part.
  abbrev pub IsDirectChat : String → String → String → World → Type 0
  IsDirectChat id u t w =
      (r : Room) × (p.room.find_unique id w.rooms ≡ some r)
      × (is_direct r.type ≡ true)
      × (takes_part p id u w ≡ true)
      × (takes_part p id t w ≡ true)

  created-IsDirectChat :
      (e : Fresh) (u t : String) (w : World) (room : Room)
      → (create_direct_room p e u t w).0 ≡ ok room
      → IsDirectChat room.id u t (create_direct_room p e u t w).1
  created-IsDirectChat e u t w room done = elim (create_direct_room_writes e u t w) [
    | inl (failed, same) ↦ absurd (ground arith)
    | inr (made, free, admitted, admitted', rooms, members) ↦
        let one = new_member (child e 0) e.id u none member in
        let two = new_member (child e 1) e.id t none member in
        let is : direct_room e ≡ room = ground arith in
        let w' = (create_direct_room p e u t w).1 in
        let read = λ (v : String).
          p.room_member.find-create two (p.room_member.create one w.room_members) (e.id, v)
            admitted' in
        let read_one =
          λ (v : String). p.room_member.find-create one w.room_members (e.id, v) admitted in
        let after : (v : String)
            → find_member p e.id v w'
              ≡ p.room_member.find_unique (e.id, v)
                  (p.room_member.create two (p.room_member.create one w.room_members)) =
          λ v. ap (λ rows. p.room_member.find_unique (e.id, v) rows) members in
        subst (λ (r : Room). IsDirectChat r.id u t w') is
          (
            direct_room e,
            rw rooms (
                ground
                  (arith, p.room.find-create (direct_room e) w.rooms e.id free, id_iff e.id e.id)),
            refl,
            ground (arith, after u, read u, read_one u, id_iff e.id e.id, id_iff u u, id_iff t u),
            ground (arith, after t, read t, id_iff e.id e.id, id_iff t t),
          )
  ]

  takes_part_in-takes_part :
      (u : String) (w : World) (r : Room)
      → takes_part_in p u w r ≡ true
      → takes_part p r.id u w ≡ true
  takes_part_in-takes_part u w r h = ground arith

  row-takes_part :
      (r t : String) (w : World) (y : RoomMember)
      → find_member p y.room_id y.user_id w ≡ some y
      → is_active_in r y ≡ true
      → (y.user_id == t) ≡ true
      → takes_part p r t w ≡ true
  row-takes_part r t w y row active name =
      let here : y.room_id ≡ r = ground (arith, id_iff y.room_id r) in
      let who : y.user_id ≡ t = (id_iff y.user_id t).0 name in
      let found : find_member p r t w ≡ some y =
        subst (λ i. find_member p i t w ≡ some y) here
          (subst (λ v. find_member p y.room_id v w ≡ some y) who row) in
      ground arith

  listed-IsDirectChat :
      (u t : String) (w : World) (x : MyRoom)
      → find (is_direct_with t) (find_my_rooms p u w) ≡ some x
      → IsDirectChat x.room.id u t w
  listed-IsDirectChat u t w x found =
      let (i, good) = find-In (is_direct_with t) x (find_my_rooms p u w) found in
      let (r, stored, here, e) = ((find_my_rooms_lem p u w).1 x).0 i in
      let members = my_room p u w r in
      let good' : is_direct_with t (my_room p u w r) ≡ true =
        subst (λ (z : MyRoom). is_direct_with t z ≡ true) (sym e) good in
      elim (Option-cases
        (find (λ (m : RoomMember × Option UserSummary). m.0.user_id == t) members.members)) [
          | inl no_one ↦ absurd (ground arith)
          | inr (m, q) ↦
              let (j, name) =
                find-In (λ (m : RoomMember × Option UserSummary). m.0.user_id == t) m
                  members.members q in
              let (y, k, same) = In-map (with_user p w) m (active_members_of p r.id w) j in
              let (row, active) =
                (p.room_member.In-find_many (is_active_in r.id) w.room_members y).0 k in
              subst (λ (z : MyRoom). IsDirectChat z.room.id u t w) e
                (
                  r,
                  stored,
                  ground arith,
                  takes_part_in-takes_part u w r here,
                  row-takes_part r.id t w y row active (
                      subst (λ (z : RoomMember × Option UserSummary). (z.0.user_id == t) ≡ true)
                        (sym same) name),
                )
        ]

  -- Where the panel goes to a room, made or found, it is a direct room that is stored, in which the
  -- user and the other both take part.
  pub handle_open_direct_chat-IsDirectChat :
      (e : Fresh) (u t id : String) (w : World)
      → let (res, w') = handle_open_direct_chat e u t w in res ≡ some id → IsDirectChat id u t w'
  unfolding handle_open_direct_chat
  handle_open_direct_chat-IsDirectChat e u t id w =
      let w' = (create_direct_room p e u t w).1 in
      elim (Result-cases (create_direct_room p e u t w).0) [
        | inl (room, made) ↦
            let goes : handle_open_direct_chat e u t w ≡ (some room.id, w') = ground arith in
            rw goes (λ same.
              subst (λ i. IsDirectChat i u t w') (ground arith)
                (created-IsDirectChat e u t w room made))
        | inr (x, failed) ↦
            let list = find_my_rooms p u w' in
            elim (Option-cases (find (is_direct_with t) list)) [
              | inl no_room ↦ λ same. absurd (ground arith)
              | inr (r, found) ↦
                  let goes : (handle_open_direct_chat e u t w).1 ≡ w' = ground arith in
                  λ same.
                    subst (λ v. IsDirectChat id u t v) (sym goes)
                      (subst (λ i. IsDirectChat i u t w') (ground arith)
                        (listed-IsDirectChat u t w' r found))
            ]
      ]
