-- ===== src/RoomMembers/Capacity.antt =====
-- The limit on a room's members, and what an invitation or a removal does to the number of those
-- who take part.
use talkertive_chat_app.Base.{
  ℕ, ◌+◌, ◌≤◌, ◌<◌, String, true, false, ◌≡◌, Option, some, List, arith, is_some, inl, inr, id_iff,
  Option-cases, string_eq, is_none,
}
use talkertive_chat_app.Schema.{Room, RoomMember, member}
use talkertive_chat_app.World.{World, Clients, Fresh, is_ok}
use talkertive_chat_app.RoomMembers.{
  find_member, active_count, invite_member, is_active_in, new_member, rejoin, set_left_at,
}

module _ (p : Clients) where
  count-create_new :
      (e : Fresh) (room_id target : String) (by : Option String) (t : List RoomMember)
      → p.room_member.admits (new_member e room_id target by member) t ≡ true
      → p.room_member.count
          (is_active_in room_id)
          (p.room_member.create (new_member e room_id target by member) t)
        ≡ p.room_member.count (is_active_in room_id) t + 1
  count-create_new e room_id target by t h = ground (
    arith,
    p.room_member.count-create (is_active_in room_id) (new_member e room_id target by member) t h,
    id_iff room_id room_id,
  )

  count-rejoin :
      (room_id target requester : String) (t : List RoomMember) (m : RoomMember)
      → p.room_member.find_unique (room_id, target) t ≡ some m
      → is_none m.left_at ≡ false
      → p.room_member.count
          (is_active_in room_id)
          (p.room_member.update (room_id, target) (rejoin requester) t)
        ≡ p.room_member.count (is_active_in room_id) t + 1
  count-rejoin room_id target requester t m q gone =
      let k = p.room_member.find-key q in
      ground (
        arith,
        p.room_member.count-update (is_active_in room_id) (room_id, target) (rejoin requester) t m q
            k,
        id_iff m.room_id room_id,
        k,
      )

  pub count-leave :
      (room_id target : String) (now : ℕ) (t : List RoomMember) (m : RoomMember)
      → p.room_member.find_unique (room_id, target) t ≡ some m
      → is_some m.left_at ≡ false
      → p.room_member.count
            (is_active_in room_id)
            (p.room_member.update (room_id, target) (set_left_at (some now)) t)
          + 1
        ≡ p.room_member.count (is_active_in room_id) t
  count-leave room_id target now t m q here =
      let k = p.room_member.find-key q in
      ground (
        arith,
        p.room_member.count-update (is_active_in room_id) (room_id, target) (set_left_at (some now))
            t m q k,
        id_iff m.room_id room_id,
        k,
      )

  pub invite_member_adds :
      (e : Fresh) (requester room_id target : String) (w : World)
      → let (res, w') = invite_member p e requester room_id target w in
        is_ok res ≡ true → active_count p room_id w' ≡ active_count p room_id w + 1
  unfolding invite_member
  invite_member_adds e requester room_id target w done =
      elim (Option-cases (find_member p room_id target w)) [
        | inl new ↦
            ground (arith, count-create_new e room_id target (some requester) w.room_members)
        | inr (m, q) ↦ ground (arith, count-rejoin room_id target requester w.room_members m q)
      ]

  invite_member_below :
      (e : Fresh) (requester room_id target : String) (w : World) (room : Room) (limit : ℕ)
      → p.room.find_unique room_id w.rooms ≡ some room
      → room.member_limit ≡ some limit
      → is_ok (invite_member p e requester room_id target w).0 ≡ true
      → active_count p room_id w < limit
  unfolding invite_member
  invite_member_below e requester room_id target w room limit q l done = ground arith

  -- In a room with a limit, an invitation that succeeds adds one to those who take part, and does
  -- not take their number over the limit.
  pub invite_member_fits :
      (e : Fresh) (requester room_id target : String) (w : World) (room : Room) (limit : ℕ)
      → p.room.find_unique room_id w.rooms ≡ some room
      → room.member_limit ≡ some limit
      → is_ok (invite_member p e requester room_id target w).0 ≡ true
      → (active_count p room_id (invite_member p e requester room_id target w).1
          ≡ active_count p room_id w + 1)
        × (active_count p room_id (invite_member p e requester room_id target w).1 ≤ limit)
  invite_member_fits e requester room_id target w room limit q l done = omega (
    arith,
    invite_member_adds e requester room_id target w done,
    invite_member_below e requester room_id target w room limit q l done,
  )
