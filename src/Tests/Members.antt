-- ===== src/Tests/Members.antt =====
-- The theorems on members and rooms at concrete requests.
use talkertive_chat_app.Base.{
  String, Option, none, some, true, ◌≡◌, ◌≤◌, refl, arith, string_eq, id_iff, subst,
}
use talkertive_chat_app.World.{World, is_ok}
use talkertive_chat_app.World.Memory.{memory}
use talkertive_chat_app.RoomMembers.{invite_member, remove_member, active_count}
use talkertive_chat_app.RoomMembers.Capacity.{invite_member_fits}
use talkertive_chat_app.RoomMembers.Outcomes.{remove_member_iff}
use talkertive_chat_app.RoomMembers.Ownership.{OwnedBy}
use talkertive_chat_app.RoomMembers.Placement.{IsPlaced}
use talkertive_chat_app.RoomMembers.Lifecycle.{IsOwned}
use talkertive_chat_app.Rooms.Upkeep.{HasOwners}
use talkertive_chat_app.Api.{MemberRoute, member, room_members, transfer, handle}
use talkertive_chat_app.Api.Lifecycle.{here, requested, Reach-HasOwners}
use talkertive_chat_app.Tests.Samples.{chat, next, alice_owns, study_room}

invite_member_fits_example :
    (active_count memory "study" (invite_member memory next "alice" "study" "carol" chat).1 ≡ 3)
    × (active_count memory "study" (invite_member memory next "alice" "study" "carol" chat).1 ≤ 3)
unfolding memory invite_member
invite_member_fits_example =
    invite_member_fits memory next "alice" "study" "carol" chat study_room 3 refl refl refl

remove_member_iff_example : is_ok (remove_member memory next "bob" "study" "bob" chat).0 ≡ true
unfolding memory
remove_member_iff_example = remove_member_iff memory next "bob" "study" "bob" chat

placed : IsPlaced memory chat.rooms chat.room_members
unfolding memory
placed r v m h = ground (arith, id_iff "study" r)

owned : IsOwned memory chat
unfolding memory
owned r room q g = (
  "alice",
  subst (λ r. OwnedBy memory chat.room_members r "alice") (ground (arith, id_iff "study" r))
      alice_owns,
)

abbrev hand_over : MemberRoute
hand_over = room_members (transfer "study" "bob")

abbrev handed : World
handed = (handle memory next (some "alice") (member hand_over) chat).1

abbrev no_token : String → Option String
no_token token = none

Reach-HasOwners_example : HasOwners memory handed
unfolding memory
Reach-HasOwners_example =
    Reach-HasOwners memory no_token chat handed
      (requested next (some "alice") hand_over chat chat refl (here chat)) (placed, owned)
