-- ===== src/Admin.antt =====
-- backend/src/admin/admin.service.ts, `AdminService`: what it deletes, and a user's page. The
-- child modules hold the statistics and the lists.
pub mod Deletion
pub mod RoomDeletion
pub mod Statistics
pub mod Lists
use mathlib.Core.Option
use talkertive_chat_app.Base.{
  ℕ, String, Bool, true, false, not, ◌&&◌, Option, none, some, List, [], ◌∷◌, ◌==◌, string_eq,
  is_none, filter, if◌then◌else◌, descending, map,
}
use talkertive_chat_app.Prisma.{whole}
use talkertive_chat_app.Schema.{User, Room, RoomMember}
use talkertive_chat_app.World.{
  ok, World, Clients, Action, pure, throw, gets, transaction, ◌>>=◌, ◌>>◌, throw_if, both,
  not_found, delete_room_row, delete_user_row, delete_messages_of,
}
use talkertive_chat_app.RoomMembers.{is_owner_role}
use talkertive_chat_app.Media.{delete_if_exists, image_of, cover_of, profile_image_of}
use talkertive_chat_app.Users.{PublicUser, without_password, find_user}

-- The page of a user: the rooms that the user owns and those that the user has joined.
pub record UserDetail : Type 0 where
  pub user : PublicUser
  pub owned_rooms : List (Option Room)
  pub joined_rooms : List (Option Room)

module _ (p : Clients) where
  abbrev pub memberships : String → World → List RoomMember
  memberships user_id w =
      p.room_member.find_page (whole (descending (λ m. m.created_at)))
        (λ m. m.user_id == user_id && is_none m.left_at) w.room_members

  abbrev pub room_of : World → RoomMember → Option Room
  room_of w m = p.room.find_unique m.room_id w.rooms

  unfoldable pub find_one_user : String → Action UserDetail
  find_one_user id w = elim (find_user p id w) [
    | none ↦ throw (not_found "유저를 찾을 수 없습니다.") w
    | some u ↦ (
      ok (record {
        user = without_password u;
        owned_rooms = map (room_of w) (filter (λ m. is_owner_role m.role) (memberships id w));
        joined_rooms =
            map (room_of w) (filter (λ m. not (is_owner_role m.role)) (memberships id w));
      }),
      w,
    )
  ]

  unfoldable pub delete_user : String → Action (Unit {0})
  unfolding delete_if_exists delete_messages_of delete_user_row
  delete_user id = do
    user ← gets (find_user p id)
    throw_if (is_none user) (not_found "유저를 찾을 수 없습니다.")
    delete_if_exists p (image_of user)
    transaction (delete_messages_of p id >> delete_user_row p id)
    pure tt

  unfoldable pub delete_room : String → Action (Unit {0})
  unfolding delete_if_exists delete_room_row
  delete_room id = do
    room ← gets (λ w. p.room.find_unique id w.rooms)
    throw_if (is_none room) (not_found "모임을 찾을 수 없습니다.")
    both (delete_if_exists p (cover_of room)) (delete_if_exists p (profile_image_of room))
    delete_room_row p id
    pure tt
