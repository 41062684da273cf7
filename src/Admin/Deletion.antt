-- ===== src/Admin/Deletion.antt =====
-- What is left of a user whom an administrator deletes.
use talkertive_chat_app.Base.{
  String, true, false, ◌≡◌, ◌≢◌, none, some, arith, id_iff, ◌==◌, string_eq, inl, inr, Option-cases,
  pair_eq, ap,
}
use talkertive_chat_app.Schema.{Message, RoomMember, owner}
use talkertive_chat_app.World.{World, Clients, is_ok, of_sender}
use talkertive_chat_app.RoomMembers.{find_member}
use talkertive_chat_app.RoomMembers.Ownership.{OwnedBy}
use talkertive_chat_app.Rooms.Deletion.{delete_many-find, delete_many-find_none}
use talkertive_chat_app.Users.{find_user}
use talkertive_chat_app.Admin.{delete_user}

module _ (p : Clients) where
  delete_user_writes :
      (id : String) (w : World)
      → is_ok (delete_user p id w).0 ≡ true
      → let w' = (delete_user p id w).1 in
        (w'.users ≡ p.user.delete id w.users)
        × (w'.room_members ≡ p.room_member.delete_many (λ m. m.user_id == id) w.room_members)
        × (w'.messages ≡ p.message.delete_many (of_sender p id) w.messages)
  unfolding delete_user
  delete_user_writes id w done = ground arith

  -- Where an administrator's deletion of a user succeeds, the user is gone, and so are the user's
  -- memberships and messages, and the other users and their memberships are as they were.
  delete_user_erases :
      (id : String) (w : World)
      → is_ok (delete_user p id w).0 ≡ true
      → let w' = (delete_user p id w).1 in
        (find_user p id w' ≡ none)
        × ((v : String) → (id == v) ≡ false → find_user p v w' ≡ find_user p v w)
        × ((r : String) → find_member p r id w' ≡ none)
        × ((j : String) (m : Message)
            → p.message.find_unique j w'.messages ≡ some m
            → (m.sender_id == id) ≡ false)
        × ((r v : String) → (id == v) ≡ false → find_member p r v w' ≡ find_member p r v w)
  delete_user_erases id w done =
      let (users, members, messages) = delete_user_writes id w done in
      (
        rw (find_user, users) (ground (arith, p.user.find-delete id w.users id, id_iff id id)),
        λ v ne. rw (find_user, users) (ground (arith, p.user.find-delete id w.users v)),
        λ r.
            rw (find_member, members)
              (delete_many-find_none p.room_member (λ m. m.user_id == id) w.room_members (r, id)
                (λ m h. (id_iff m.user_id id).1 (ap (λ k. k.1) (p.room_member.find-key h)))),
        λ j m h. delete_many-find p.message (of_sender p id) w.messages j m (rw messages at h),
        λ r v ne.
            rw (find_member, members)
              (elim (Option-cases (find_member p r v w)) [
                | inl missing ↦ ground (
                  arith,
                  p.room_member.find-delete_many (λ m. m.user_id == id) w.room_members (r, v),
                )
                | inr (m, q) ↦ ground (
                  arith,
                  id_iff id v,
                  id_iff m.user_id id,
                  p.room_member.find-key q,
                  p.room_member.find-delete_many (λ m. m.user_id == id) w.room_members (r, v),
                )
              ]),
      )

  -- Where an administrator's deletion of a user succeeds, and the user was the one owner of a
  -- room, no row of that room says owner afterwards.
  pub delete_user_orphans :
      (id r : String) (w : World)
      → is_ok (delete_user p id w).0 ≡ true
      → OwnedBy p w.room_members r id
      → (v : String) (m : RoomMember) → find_member p r v (delete_user p id w).1 ≡ some m
      → m.role ≢ owner
  delete_user_orphans id r w done o v m h own =
      let (user, others, gone, said, same) = delete_user_erases id w done in
      ground (arith, id_iff id v, gone r, same r v, o.alone v m)
