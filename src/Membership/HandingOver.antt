-- ===== src/Membership/HandingOver.antt =====
-- How an owner hands a room over and leaves it.
use talkertive_chat_app.Base.{
  String, true, false, ◌≡◌, some, In, arith, string_eq, inl, inr, is_none, Option-cases,
}
use talkertive_chat_app.Schema.{Room, RoomMember}
use talkertive_chat_app.World.{World, Clients, Fresh}
use talkertive_chat_app.RoomMembers.{find_member}
use talkertive_chat_app.RoomMembers.Outcomes.{takes_part, owns}
use talkertive_chat_app.Rooms.Queries.{MyRoom, find_my_rooms, takes_part_in}
use talkertive_chat_app.Membership.{
  Settings, opened, on_transfer_click, on_leave_click, handle_transfer_owner,
}

module _ (p : Clients) where
  pub listed-row :
      (u : String) (w : World) (r : Room)
      → takes_part_in p u w r ≡ true
      → (m : RoomMember) × (find_member p r.id u w ≡ some m) × (is_none m.left_at ≡ true)
  listed-row u w r h = elim (Option-cases (find_member p r.id u w)) [
    | inl missing ↦ absurd (ground arith)
    | inr (m, q) ↦ (m, q, ground arith)
  ]

  abbrev after_transfer : Fresh → String → MyRoom → String → World → Settings × World
  after_transfer e u x t w =
      handle_transfer_owner p e (some u) true t (on_transfer_click (opened x)) w

  abbrev LeavesAnew : Fresh → Fresh → String → MyRoom → String → World → Type 0
  LeavesAnew e e' u x t w =
      let w' = (after_transfer e u x t w).1 in
      (y : MyRoom) × In y (find_my_rooms p u w')
      × (y.room.id ≡ x.room.id)
      × (let (s'', w'') = on_leave_click p e' (some u) u true (opened y) w' in
          (s'' ≡ record (opened y) { is_back = true })
          × (owns p x.room.id t w'' ≡ true)
          × (takes_part p x.room.id u w'' ≡ false))
