-- ===== src/Tests/Membership.antt =====
-- The theorems on the panels for members: alice, who owns the room, takes carol in, and hands the
-- room over to bob.
use talkertive_chat_app.Base.{true, ◌≡◌, refl, Option, some, [], ◌∷◌, inl, string_eq}
use talkertive_chat_app.Schema.{RoomMember}
use talkertive_chat_app.World.{UserSummary}
use talkertive_chat_app.World.Memory.{memory}
use talkertive_chat_app.RoomMembers.Outcomes.{takes_part}
use talkertive_chat_app.Rooms.Queries.{MyRoom, my_room, find_my_rooms, with_user}
use talkertive_chat_app.Membership.{InvitePanel, on_open, on_click}
use talkertive_chat_app.Membership.Invites.{on_click_lem}
use talkertive_chat_app.Tests.Samples.{chat, next, study_room, member_of}

abbrev closed : InvitePanel
closed = record { owner_rooms = []; invited_room_ids = "lobby" ∷ [] }

abbrev study : MyRoom
study = my_room memory "alice" chat study_room

on_click_lem_example :
    takes_part memory "study" "carol"
      (on_click memory next
        (some "alice")
        "carol"
        "study"
        (on_open memory (some "alice") chat closed)
        chat).1
    ≡ true
unfolding memory on_open find_my_rooms
on_click_lem_example =
    (on_click_lem memory next "alice" "carol" closed study chat (inl refl) (λ new. refl)).2 refl

abbrev bob : RoomMember × Option UserSummary
bob = with_user memory chat (member_of "study" "bob")
