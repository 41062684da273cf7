-- ===== src/Membership/Invites.antt =====
-- What the panel for invitations offers, and what a click on one of its rooms does.
use talkertive_chat_app.Base.{
  ℕ, leb, String, Bool, true, false, not, ◌&&◌, ◌≡◌, refl, ap, ◌∙◌, sym, subst, Option, none, some,
  List, [], ◌∷◌, In, In-filter, arith, id_iff, string_eq, if◌then◌else◌, inl, inr, is_none, is_some,
  Option-cases, some_of_is_some, Bool-cases, ◌++◌,
}
use talkertive_chat_app.Schema.{Room, RoomMember, member}
use talkertive_chat_app.World.{World, Clients, Fresh, Action, ok, is_ok, throw_if, not_found, ◌>>◌}
use talkertive_chat_app.World.Keeps.{Result-cases}
use talkertive_chat_app.Users.{find_user}
use talkertive_chat_app.RoomMembers.{
  find_member, active_count, assert_owner, check_limit, admit, invite_member, new_member, rejoin,
  is_active_in,
}
use talkertive_chat_app.RoomMembers.Outcomes.{takes_part, owns, room_members_atomic}
use talkertive_chat_app.RoomMembers.Capacity.{invite_member_adds}
use talkertive_chat_app.RoomMembers.Ownership.{invite_member_writes}
use talkertive_chat_app.Rooms.Queries.{MyRoom, find_my_rooms, my_room}
use talkertive_chat_app.Rooms.MyRooms.{find_my_rooms_lem}
use talkertive_chat_app.Chat.Unread.{own_row}
use talkertive_chat_app.Api.{invite, handle}
use talkertive_chat_app.Api.Access.{answered-world}
use talkertive_chat_app.Membership.{InvitePanel, is_owners, request, on_open, on_click, has, add}
use talkertive_chat_app.Membership.HandingOver.{listed-row}

-- Whether the limit of a room leaves a place where so many take part.
abbrev pub fits : Room → ℕ → Bool
fits room n = elim room.member_limit [ none ↦ true | some limit ↦ not (leb limit n) ]

-- After what leaves the state alone, both must succeed.
ok-then :
    {A B : Type 0} (m : Action A) (k : Action B) (w : World)
    → (m w).1 ≡ w
    → is_ok ((m >> k) w).0 ≡ (is_ok (m w).0 && is_ok (k w).0)
ok-then m k w same = elim (Result-cases (m w).0) [
  | inl (a, q) ↦ ground (arith, ap k same)
  | inr (x, q) ↦ ground arith
]

has-append : (x : String) (l : List String) → has x (l ++ x ∷ []) ≡ true
has-append x [] = ground (arith, id_iff x x)
has-append x (y ∷ ys) = ground (arith, has-append x ys)

has-add : (x : String) (l : List String) → has x (add x l) ≡ true
has-add x l = ground (arith, has-append x l)

module _ (p : Clients) where
  -- Whether an owner can take this user into the room.
  abbrev pub can_join : Room → String → World → Bool
  can_join room target w =
      is_some (find_user p target w)
      && not (takes_part p room.id target w)
      && fits room (active_count p room.id w)

  request-invite :
      (e : Fresh) (u r t : String) (w : World)
      → let (res, w') = invite_member p e u r t w in
        request p e (some u) (invite r t) w ≡ (is_ok res, w')
  unfolding handle
  request-invite e u r t w =
      let (same, done) = answered-world (invite_member p e u r t) w in λ i. (done i, same i)

  module _ (e : Fresh) (u target : String) (room : Room) (w : World)
      (stored : p.room.find_unique room.id w.rooms ≡ some room) (own : owns p room.id u w ≡ true)
      (free : find_member p room.id target w ≡ none
        → p.room_member.admits (new_member e room.id target (some u) member) w.room_members
          ≡ true) where
    assert_owner-owns : assert_owner p u room.id w ≡ (ok tt, w)
    unfolding assert_owner
    assert_owner-owns = ground (arith, own)

    check_limit-fits :
        (n : ℕ)
        → (is_ok (check_limit p (some room) n w).0 ≡ fits room n)
          × ((check_limit p (some room) n w).1 ≡ w)
    unfolding check_limit
    check_limit-fits n = (ground arith, ground arith)

    admit_iff :
        is_some (find_user p target w) ≡ true
        → is_ok (admit p e u room.id target (find_member p room.id target w) w).0
          ≡ not (takes_part p room.id target w)
    unfolding admit
    admit_iff known = elim (Option-cases (find_member p room.id target w)) [
      | inl new ↦ ground (arith, free new)
      | inr (m, q) ↦ ground arith
    ]

    abbrev admitting : Action RoomMember
    admitting v = admit p e u room.id target (find_member p room.id target v) v

    abbrev limiting : Action RoomMember
    limiting v =
        (check_limit p (p.room.find_unique room.id v.rooms) (active_count p room.id v) >> admitting)
          v

    abbrev knowing : Action RoomMember
    knowing v =
        (throw_if (is_none (find_user p target v)) (not_found "초대할 유저를 찾을 수 없습니다.") >> limiting) v

    invite_member_steps :
        invite_member p e u room.id target w ≡ (assert_owner p u room.id >> knowing) w
    unfolding invite_member
    invite_member_steps = refl

    limiting_iff :
        is_some (find_user p target w) ≡ true
        → is_ok (limiting w).0
          ≡ (not (takes_part p room.id target w) && fits room (active_count p room.id w))
    limiting_iff known =
        let n = active_count p room.id w in
        let (fit, same) = check_limit-fits n in
        let limit = λ (r : Option Room). check_limit p r n w in
        ok-then (check_limit p (p.room.find_unique room.id w.rooms) n) admitting w
          (ap (λ r. (limit r).1) stored ∙ same)
        ∙ ground (arith, ap (λ r. is_ok (limit r).0) stored, fit, admit_iff known)

    invite_member_iff : is_ok (invite_member p e u room.id target w).0 ≡ can_join room target w
    invite_member_iff =
        ap (λ r. is_ok r.0) invite_member_steps
        ∙ ok-then (assert_owner p u room.id) knowing w (ap (λ r. r.1) assert_owner-owns)
        ∙ ap (λ r. is_ok r.0 && is_ok (knowing w).0) assert_owner-owns
        ∙ elim (Option-cases (find_user p target w)) [
          | inl unknown ↦ ground arith
          | inr (x, found) ↦ ground (arith, limiting_iff (ground arith))
        ]

    invited-takes_part :
        is_ok (invite_member p e u room.id target w).0 ≡ true
        → takes_part p room.id target (invite_member p e u room.id target w).1 ≡ true
    invited-takes_part done = elim (invite_member_writes p e u room.id target w) [
      | inl same ↦
          let one_more = invite_member_adds p e u room.id target w done in
          absurd (ground (arith, ap (λ t. p.room_member.count (is_active_in room.id) t) same))
      | inr (inl (admitted, known, written)) ↦ ground (
        arith,
        p.room_member.find-create (new_member e room.id target (some u) member) w.room_members
            (room.id, target) admitted,
        id_iff room.id room.id,
        id_iff target target,
      )
      | inr (inr (known, written)) ↦
          let (m, q) = some_of_is_some (find_member p room.id target w) known in
          ground (
            arith,
            p.room_member.find-update (room.id, target) (rejoin u) w.room_members (room.id, target)
                m q (p.room_member.find-key q),
            id_iff room.id room.id,
            id_iff target target,
          )
    ]

    abbrev marked : InvitePanel → Bool → InvitePanel
    marked panel done =
        if done
        then record panel { invited_room_ids = add room.id panel.invited_room_ids }
        else panel

    on_click-eq :
        (panel : InvitePanel)
        → has room.id panel.invited_room_ids ≡ false
        → let (res, w') = invite_member p e u room.id target w in
          on_click p e (some u) target room.id panel w ≡ (marked panel (is_ok res), w')
    unfolding on_click
    on_click-eq panel new =
        let after : Bool × World → InvitePanel × World = λ b. (marked panel b.0, b.1) in
        let unchanged : InvitePanel × World = (panel, w) in
        ap (λ b. if b then unchanged else after (request p e (some u) (invite room.id target) w))
          new
        ∙ ap after (request-invite e u room.id target w)

    -- A click on a room that is not yet marked.
    clicked :
        (panel : InvitePanel)
        → has room.id panel.invited_room_ids ≡ false
        → let (panel', w') = on_click p e (some u) target room.id panel w in
          (has room.id panel'.invited_room_ids ≡ can_join room target w)
          × (can_join room target w ≡ true → takes_part p room.id target w' ≡ true)
          × (can_join room target w ≡ false → w' ≡ w)
    clicked panel new =
        let (kept, _, _) = room_members_atomic p e u room.id target w in
        let iff = invite_member_iff in
        rw (on_click-eq panel new) (
          elim (Bool-cases (can_join room target w)) [
            | inl can ↦ ground (arith, iff, can, has-add room.id panel.invited_room_ids)
            | inr cannot ↦ ground (arith, iff, cannot, new)
          ],
          λ can. invited-takes_part (iff ∙ can),
          λ cannot. kept (iff ∙ cannot),
        )

  -- The panel for invitations offers rooms that its user owns. Where a new row's identifier is not
  -- taken, a click on one of them marks the room exactly where the other user exists, does not yet
  -- take part and the room's limit leaves a place; that user then takes part, and in every other
  -- case nothing changes.
  pub on_click_lem :
      (e : Fresh) (u target : String) (panel : InvitePanel) (x : MyRoom) (w : World)
      → In x (on_open p (some u) w panel).owner_rooms
      → (find_member p x.room.id target w ≡ none
          → p.room_member.admits (new_member e x.room.id target (some u) member) w.room_members
            ≡ true)
      → let (panel', w') = on_click p e (some u) target x.room.id (on_open p (some u) w panel) w in
        (owns p x.room.id u w ≡ true)
        × (has x.room.id panel'.invited_room_ids ≡ can_join x.room target w)
        × (can_join x.room target w ≡ true → takes_part p x.room.id target w' ≡ true)
        × (can_join x.room target w ≡ false → w' ≡ w)
  unfolding on_open
  on_click_lem e u target panel x w listed free =
      let (shown, own_role) = (In-filter is_owners x (find_my_rooms p u w)).0 listed in
      let (r, stored, there, same) = ((find_my_rooms_lem p u w).1 x).0 shown in
      let (m, q, active) = listed-row p u w r there in
      let mine = own_row p r.id u w m q active in
      let is_mine : is_owners (my_room p u w r) ≡ true = ap is_owners same ∙ own_role in
      let is_room : r ≡ x.room = ap (λ (z : MyRoom). z.room) same in
      let own : owns p r.id u w ≡ true = ground (arith, mine) in
      let own' = ap (λ (k : Room). owns p k.id u w) (sym is_room) ∙ own in
      let (marks, joins, keeps) =
        clicked e u target x.room w
          (subst (λ (k : Room). p.room.find_unique k.id w.rooms ≡ some k) is_room stored) own' free
          (on_open p (some u) w panel) refl in
      (own', marks, joins, keeps)
