-- ===== src/Admin/Lists.antt =====
-- backend/src/admin/admin.service.ts: `findAllUsers`, `findAllRooms` and `findOneRoom`, with the
-- queries of backend/src/admin/dto. `skip` and `take` are texts there; here they are the numbers
-- that the texts stand for, none for an empty text or none at all.
use talkertive_chat_app.Base.{
  ℕ, ◌≤◌, String, Bool, true, ◌&&◌, ◌||◌, ◌≡◌, refl, sym, ap, subst, Option, none, some, is_none,
  List, map, length, length-map, In, In-map, ◌==◌, string_eq, ascending, descending, if◌then◌else◌,
}
use talkertive_chat_app.Prisma.{Page, whole}
use talkertive_chat_app.Schema.{
  User, Room, RoomType, RoomCategory, RoomMember, RoomSchedule, direct, group,
}
use talkertive_chat_app.World.{World, Clients, UserSummary, Action, ok, throw, not_found}
use talkertive_chat_app.RoomMembers.{is_active_in, active_count, is_owner_role}
use talkertive_chat_app.Rooms.Kinds.{is_direct, is_group}
use talkertive_chat_app.Rooms.Queries.{with_user, matches_search, matches_category}
use talkertive_chat_app.Users.{PublicUser, without_password}

pub record AdminUserQuery : Type 0 where
  pub skip : Option ℕ
  pub count : Option ℕ
  pub search : Option String
  pub role : Option String

pub record AdminRoomQuery : Type 0 where
  pub skip : Option ℕ
  pub count : Option ℕ
  pub search : Option String
  pub category : Option RoomCategory
  pub type : Option RoomType

pub record Listing (A : Type 0) : Type 0 where
  pub items : List A
  pub total : ℕ

pub record AdminRoomDetail : Type 0 where
  pub room : Room
  pub members : List (RoomMember × Option UserSummary)
  pub schedules : List RoomSchedule
  pub messages : ℕ
  pub likes : ℕ

abbrev pub number_or : ℕ → Option ℕ → ℕ
number_or d none = d
number_or d (some n) = n

-- `type ?? RoomType.GROUP`
abbrev pub has_type : Option RoomType → Room → Bool
has_type none r = is_group r.type
has_type (some direct) r = is_direct r.type
has_type (some group) r = is_group r.type

-- `...(role && { role })`
abbrev pub has_role : Option String → User → Bool
has_role none u = true
has_role (some role) u = if role == "" then true else u.role == role

-- The arguments `skip`, `take` and `orderBy` of both lists.
abbrev pub latest : {Row : Type 0} → (Row → ℕ) → Option ℕ → Option ℕ → Page Row String
latest created skip count = record {
  order = descending created;
  skip = number_or 0 skip;
  take = some (number_or 20 count);
  cursor = none;
}

module _ (p : Clients) where
  abbrev pub matches_user : Option String → User → Bool
  matches_user none u = true
  matches_user (some s) u = if s == "" then true else p.contains u.name s || p.contains u.email s

  abbrev pub is_user_listed : AdminUserQuery → User → Bool
  is_user_listed q u = matches_user q.search u && has_role q.role u

  abbrev pub rooms_taken : World → User → ℕ
  rooms_taken w u = p.room_member.count (λ m. m.user_id == u.id && is_none m.left_at) w.room_members

  unfoldable pub find_all_users : AdminUserQuery → World → Listing (PublicUser × ℕ)
  find_all_users q w = record {
    items =
        map (λ u. (without_password u, rooms_taken w u))
          (p.user.find_page (latest (λ u. u.created_at) q.skip q.count) (is_user_listed q) w.users);
    total = p.user.count (is_user_listed q) w.users;
  }

  abbrev pub is_room_listed : AdminRoomQuery → Room → Bool
  is_room_listed q r =
      has_type q.type r && matches_search p q.search r && matches_category p q.category r

  -- `members: { where: { role: 'OWNER', leftAt: null }, take: 1 }`
  abbrev pub first_owner : World → Room → List (RoomMember × Option UserSummary)
  first_owner w r = map (with_user p w) (
      p.room_member.find_page
        (record { order = λ a b. true; skip = 0; take = some 1; cursor = none })
        (λ m. is_active_in r.id m && is_owner_role m.role) w.room_members)

  unfoldable pub find_all_rooms :
      AdminRoomQuery → World → Listing (Room × ℕ × List (RoomMember × Option UserSummary))
  find_all_rooms q w = record {
    items =
        map (λ r. (r, active_count p r.id w, first_owner w r))
          (p.room.find_page (latest (λ r. r.created_at) q.skip q.count) (is_room_listed q) w.rooms);
    total = p.room.count (is_room_listed q) w.rooms;
  }

  unfoldable pub find_one_room : String → Action AdminRoomDetail
  find_one_room id w = elim (p.room.find_unique id w.rooms) [
    | none ↦ throw (not_found "모임을 찾을 수 없습니다.") w
    | some r ↦ (
      ok (record {
        room = r;
        members = map (with_user p w) (
            p.room_member.find_page (whole (ascending (λ m. m.created_at))) (is_active_in id)
              w.room_members);
        schedules =
            p.schedule.find_page (whole (ascending (λ s. s.time))) (λ s. s.room_id == id)
              w.schedules;
        messages = p.message.count (λ m. m.room_id == id) w.messages;
        likes = p.like.count (λ l. l.room_id == id) w.likes;
      }),
      w,
    )
  ]

  few_owners : (w : World) (r : Room) → length (first_owner w r) ≤ 1
  few_owners w r =
      let page : Page RoomMember (String × String) = record {
        order = λ a b. true;
        skip = 0;
        take = some 1;
        cursor = none;
      } in
      let q : RoomMember → Bool = λ m. is_active_in r.id m && is_owner_role m.role in
      rw (length-map (with_user p w) (p.room_member.find_page page q w.room_members))
        (p.room_member.length-find_page-le page q w.room_members 1 refl)

  -- A list of the administrator holds as many rows as were asked for at most, twenty where none
  -- were asked for, each a stored row that meets the query, a group room where no kind is asked
  -- for; and its total is the number of all rows that meet the query, whatever the page.
  find_all_lem :
      (q : AdminUserQuery) (r : AdminRoomQuery) (w : World)
      → let us = find_all_users q w in
        let rs = find_all_rooms r w in
        (length us.items ≤ number_or 20 q.count)
        × ((u : PublicUser) (n : ℕ)
            → In (u, n) us.items
            → (x : User) × (p.user.find_unique u.id w.users ≡ some x)
              × (is_user_listed q x ≡ true)
              × (u ≡ without_password x)
              × (n ≡ rooms_taken w x))
        × (us.total ≡ length (p.user.find_many (is_user_listed q) w.users))
        × (length rs.items ≤ number_or 20 r.count)
        × ((x : Room) (n : ℕ) (o : List (RoomMember × Option UserSummary))
            → In (x, n, o) rs.items
            → (p.room.find_unique x.id w.rooms ≡ some x)
              × (is_room_listed r x ≡ true)
              × (n ≡ active_count p x.id w)
              × (length o ≤ 1))
        × (rs.total ≡ length (p.room.find_many (is_room_listed r) w.rooms))
  unfolding find_all_users find_all_rooms
  find_all_lem q r w =
      let up = latest (λ (u : User). u.created_at) q.skip q.count in
      let rp = latest (λ (r : Room). r.created_at) r.skip r.count in
      let users = p.user.find_page up (is_user_listed q) w.users in
      let rooms = p.room.find_page rp (is_room_listed r) w.rooms in
      let show_user : User → PublicUser × ℕ = λ u. (without_password u, rooms_taken w u) in
      let show_room : Room → Room × ℕ × List (RoomMember × Option UserSummary) =
        λ r. (r, active_count p r.id w, first_owner w r) in
      (
        rw (length-map show_user users)
            (p.user.length-find_page-le up (is_user_listed q) w.users (number_or 20 q.count) refl),
        λ u n i.
            let (x, j, e) = In-map show_user (u, n) users i in
            let (found, listed) =
              (p.user.In-find_many (is_user_listed q) w.users x).0
                (p.user.In-find_page up (is_user_listed q) w.users x j) in
            let same : without_password x ≡ u = ap (λ t. t.0) e in
            (
              x,
              subst (λ (v : PublicUser). p.user.find_unique v.id w.users ≡ some x) same found,
              listed,
              sym same,
              sym (ap (λ t. t.1) e),
            ),
        p.user.count_lem (is_user_listed q) w.users,
        rw (length-map show_room rooms)
            (p.room.length-find_page-le rp (is_room_listed r) w.rooms (number_or 20 r.count) refl),
        λ x n o i.
            let (y, j, e) = In-map show_room (x, n, o) rooms i in
            let (found, listed) =
              (p.room.In-find_many (is_room_listed r) w.rooms y).0
                (p.room.In-find_page rp (is_room_listed r) w.rooms y j) in
            subst
              (λ (t : Room × ℕ × List (RoomMember × Option UserSummary)).
                (p.room.find_unique t.0.id w.rooms ≡ some t.0)
                × (is_room_listed r t.0 ≡ true)
                × (t.1 ≡ active_count p t.0.id w)
                × (length t.2 ≤ 1))
              e (found, listed, refl, few_owners w y),
        p.room.count_lem (is_room_listed r) w.rooms,
      )
