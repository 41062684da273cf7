-- ===== src/Membership.antt =====
-- frontend/components/InviteToGroupPanel.tsx and, of frontend/components/ChatPanel.tsx, the actions
-- on members, with frontend/components/TransferOwnerPanel.tsx: what they offer, send and show. The
-- place of a panel, clicks beside it and the flags of a request that is on its way are left out: a
-- request is answered before the next one.

pub mod Requests
pub mod HandingOver
pub mod Invites
use mathlib.Core.Option
use talkertive_chat_app.Base.{
  String, Bool, true, false, not, ◌&&◌, ◌||◌, Option, none, some, List, [], ◌∷◌, ◌++◌, filter, ◌==◌,
  string_eq, if◌then◌else◌,
}
use talkertive_chat_app.Schema.{RoomMember, RoomMemberRole}
use talkertive_chat_app.World.{World, Clients, Fresh, UserSummary, Result, is_ok}
use talkertive_chat_app.RoomMembers.{is_owner_role}
use talkertive_chat_app.Rooms.Kinds.{is_group}
use talkertive_chat_app.Rooms.Queries.{MyRoom, find_my_rooms}
use talkertive_chat_app.Api.{
  RoomMembersRoute, invite, remove, transfer, member, room_members, handle,
}

pub record InvitePanel : Type 0 where
  pub owner_rooms : List MyRoom
  pub invited_room_ids : List String

-- `Set.has` and `Set.add`
abbrev pub has : String → List String → Bool
has x [] = false
has x (y ∷ ys) = y == x || has x ys

abbrev pub add : String → List String → List String
add x xs = if has x xs then xs else xs ++ x ∷ []

-- `r.type === 'GROUP' && r.myRole === 'OWNER'`
abbrev pub is_owners : MyRoom → Bool
is_owners x =
    is_group x.room.type && elim x.my_role [ none ↦ false | some role ↦ is_owner_role role ]

-- The panel of one room: `room` is the entry of the list with which it was opened and stays as it
-- was then; whether the list for handing over is open, whether the panel has gone back to the list
-- of rooms, and the alerts that it has shown.
pub record Settings : Type 0 where
  pub room : MyRoom
  pub is_transfer_owner_open : Bool
  pub is_back : Bool
  pub alerts : List String

abbrev pub opened : MyRoom → Settings
opened x = record { room = x; is_transfer_owner_open = false; is_back = false; alerts = [] }

-- `currentUserRole === 'OWNER'`, where a role that is missing is MEMBER.
abbrev pub is_current_owner : Settings → Bool
is_current_owner s = elim s.room.my_role [ none ↦ false | some role ↦ is_owner_role role ]

-- The entry for handing over, which only an owner sees.
unfoldable pub on_transfer_click : Settings → Settings
on_transfer_click s = if is_current_owner s then record s { is_transfer_owner_open = true } else s

module _ (p : Clients) where
  -- The effect of opening: the request of `/api/rooms/my`, which fails without a token.
  unfoldable pub on_open : Option String → World → InvitePanel → InvitePanel
  on_open none w panel = record panel { invited_room_ids = [] }
  on_open (some u) w panel = record {
    invited_room_ids = [];
    owner_rooms = filter is_owners (find_my_rooms p u w);
  }

  abbrev pub request : Fresh → Option String → RoomMembersRoute → World → Bool × World
  request e subject route w =
      let (res, w') = handle p e subject (member (room_members route)) w in (is_ok res, w')

  unfoldable pub handle_invite :
      Fresh → Option String → String → String → InvitePanel → World → InvitePanel × World
  handle_invite e none target room_id panel w = (panel, w)
  handle_invite e (some u) target room_id panel w =
      let (done, w') = request e (some u) (invite room_id target) w in
      (
        if done
            then record panel { invited_room_ids = add room_id panel.invited_room_ids }
            else panel,
        w',
      )

  -- The rooms' buttons: one that has been used does nothing.
  unfoldable pub on_click :
      Fresh → Option String → String → String → InvitePanel → World → InvitePanel × World
  unfolding handle_invite
  on_click e subject target room_id panel w =
      if has room_id panel.invited_room_ids
      then (panel, w)
      else handle_invite e subject target room_id panel w

  -- Of `TransferOwnerPanel`, where it is open: the members that can be chosen.
  unfoldable pub offered : String → Settings → List (RoomMember × Option UserSummary)
  offered current_user_id s =
      if s.is_transfer_owner_open
      then filter (λ (m : RoomMember × Option UserSummary). not (m.0.user_id == current_user_id))
          s.room.members
      else []

  abbrev pub alert : String → Settings → Settings
  alert text s = record s { alerts = text ∷ s.alerts }

  -- Each handler with the answer to its `confirm`.
  unfoldable pub handle_kick_member :
      Fresh → Option String → Bool → String → Settings → World → Settings × World
  handle_kick_member e subject confirmed target s w =
      if confirmed
      then (let (done, w') = request e subject (remove s.room.room.id target) w in
          (if done then s else alert "추방에 실패했습니다." s, w'))
      else (s, w)

  unfoldable pub handle_transfer_owner :
      Fresh → Option String → Bool → String → Settings → World → Settings × World
  handle_transfer_owner e subject confirmed target s w =
      if confirmed
      then (let (done, w') = request e subject (transfer s.room.room.id target) w in
          (
            if done then record s { is_transfer_owner_open = false } else alert "권한 위임에 실패했습니다." s,
            w',
          ))
      else (s, w)

  unfoldable pub handle_leave_room :
      Fresh → Option String → String → Bool → Settings → World → Settings × World
  handle_leave_room e subject current_user_id confirmed s w =
      if confirmed
      then (let (done, w') = request e subject (remove s.room.room.id current_user_id) w in
          (if done then record s { is_back = true } else alert "방 나가기에 실패했습니다." s, w'))
      else (s, w)

  -- The entry for leaving, which does nothing for one who is shown as the owner.
  unfoldable pub on_leave_click :
      Fresh → Option String → String → Bool → Settings → World → Settings × World
  unfolding handle_leave_room
  on_leave_click e subject current_user_id confirmed s w =
      if is_current_owner s
      then (s, w)
      else handle_leave_room e subject current_user_id confirmed s w
