-- ===== src/Membership/Requests.antt =====
-- What the requests for handing a room over and for leaving it do, one by one and in a row.
use talkertive_chat_app.Base.{
  String, Bool, true, false, ◌≡◌, ap, ◌∙◌, some, arith, id_iff, ◌==◌, string_eq, if◌then◌else◌, inl,
  inr, some_of_is_some,
}
use talkertive_chat_app.Schema.{RoomMember, owner, member}
use talkertive_chat_app.World.{World, Clients, Fresh, is_ok}
use talkertive_chat_app.RoomMembers.{find_member, remove_member, transfer_owner, set_role}
use talkertive_chat_app.RoomMembers.Outcomes.{
  takes_part, owns, remove_member_iff, remove_member_leaves, transfer_owner_iff,
}
use talkertive_chat_app.RoomMembers.Transfer.{transfer_owner_writes, swapped-find}
use talkertive_chat_app.Api.{remove, transfer, handle}
use talkertive_chat_app.Api.Access.{answered-world}
use talkertive_chat_app.Membership.{
  Settings, is_current_owner, on_leave_click, alert, request, handle_transfer_owner,
}

module _ (p : Clients) where
  request-remove :
      (e : Fresh) (u r t : String) (w : World)
      → let (res, w') = remove_member p e u r t w in
        request p e (some u) (remove r t) w ≡ (is_ok res, w')
  unfolding handle
  request-remove e u r t w =
      let (same, done) = answered-world (remove_member p e u r t) w in λ i. (done i, same i)

  request-transfer :
      (e : Fresh) (u r t : String) (w : World)
      → let (res, w') = transfer_owner p u r t w in
        request p e (some u) (transfer r t) w ≡ (is_ok res, w')
  unfolding handle
  request-transfer e u r t w =
      let (same, done) = answered-world (transfer_owner p u r t) w in λ i. (done i, same i)

  pub handed :
      (e : Fresh) (u t : String) (s : Settings) (w : World)
      → let (res, w') = transfer_owner p u s.room.room.id t w in
        is_ok res ≡ true
        → handle_transfer_owner p e (some u) true t s w
          ≡ (record s { is_transfer_owner_open = false }, w')
  unfolding handle_transfer_owner
  handed e u t s w done =
      ap
        (λ (b : Bool × World). (
          if b.0 then record s { is_transfer_owner_open = false } else alert p "권한 위임에 실패했습니다." s,
          b.1,
        ))
        (request-transfer e u s.room.room.id t w)
      ∙ ground (arith, done)

  pub gone_back :
      (e : Fresh) (u : String) (s : Settings) (w : World)
      → let (res, w') = remove_member p e u s.room.room.id u w in
        is_current_owner s ≡ false
        → is_ok res ≡ true
        → on_leave_click p e (some u) u true s w ≡ (record s { is_back = true }, w')
  unfolding on_leave_click
  gone_back e u s w plain done =
      let after : Bool × World → Settings × World =
        λ b. (if b.0 then record s { is_back = true } else alert p "방 나가기에 실패했습니다." s, b.1) in
      let stays : Settings × World = (s, w) in
      ap (λ b. if b then stays else after (request p e (some u) (remove s.room.room.id u) w)) plain
      ∙ ap after (request-remove e u s.room.room.id u w)
      ∙ ground (arith, done)

  -- What is read after a hand-over that succeeds.
  pub transfer_owner-find :
      (u r t v : String) (w : World) (m n : RoomMember)
      → (u == t) ≡ false
      → find_member p r u w ≡ some m
      → find_member p r t w ≡ some n
      → let (res, w') = transfer_owner p u r t w in
        is_ok res ≡ true
        → find_member p r v w' ≡ (
            if t == v
            then some (set_role owner n)
            else if u == v
            then some (set_role member m)
            else find_member p r v w)
  transfer_owner-find u r t v w m n other qm qn done = elim (transfer_owner_writes p u r t w) [
    | inl (failed, same) ↦ absurd (ground arith)
    | inr (_, _, _, _, _, written) ↦
        ap (p.room_member.find_unique (r, v)) written
        ∙ swapped-find p w.room_members r u t r v m n other qm qn
        ∙ ground (arith, id_iff r r)
  ]

  -- The two requests, one after the other.
  pub hand_over-leave_requests :
      (e : Fresh) (u r t : String) (w : World)
      → owns p r u w ≡ true
      → takes_part p r t w ≡ true
      → (u == t) ≡ false
      → let (res, w') = transfer_owner p u r t w in
        let (res', w'') = remove_member p e u r u w' in
        (is_ok res ≡ true)
        × (is_ok res' ≡ true)
        × (owns p r t w'' ≡ true)
        × (takes_part p r u w'' ≡ false)
  hand_over-leave_requests e u r t w own there other =
      let (m, qm) = some_of_is_some (find_member p r u w) (ground arith) in
      let (n, qn) = some_of_is_some (find_member p r t w) (ground arith) in
      let w' = (transfer_owner p u r t w).1 in
      let done : is_ok (transfer_owner p u r t w).0 ≡ true =
        ground (arith, transfer_owner_iff p u r t w) in
      let read = λ (v : String). transfer_owner-find u r t v w m n other qm qn done in
      let left : is_ok (remove_member p e u r u w').0 ≡ true =
        ground (arith, remove_member_iff p e u r u w', read u, id_iff u u, id_iff t u) in
      let after = λ (v : String). (remove_member_leaves p e u r u w' r v left).0 in
      (
        done,
        left,
        ground (arith, after t, read t, id_iff t t, id_iff u t, id_iff r r),
        ground (arith, after u, read u, id_iff u u, id_iff t u, id_iff r r),
      )
