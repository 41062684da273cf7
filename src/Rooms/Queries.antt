-- ===== src/Rooms/Queries.antt =====
-- The queries of backend/src/rooms/rooms.service.ts. The metrics around the cache are left out.
use mathlib.Core.Option
use talkertive_chat_app.Base.{
  ℕ, String, Bool, true, false, not, ◌&&◌, Option, none, some, List, map, leb, ltb, ◌==◌, string_eq,
  if◌then◌else◌, pair_eq, is_none, find, head?, ascending, descending, sort,
}
use talkertive_chat_app.Prisma.{Page}
use talkertive_chat_app.Schema.{
  Room, RoomType, RoomCategory, RoomMember, RoomMemberRole, Message, User, study, sports, food,
  travel, hobby, culture, tech, etc,
}
use talkertive_chat_app.World.{
  ok, World, Clients, UserSummary, GroupRoomDetail, GroupRoomSummary, Cached, room_detail,
  room_list, Action, throw, not_found, forbidden,
}
use talkertive_chat_app.RoomMembers.{find_member, is_owner_role, is_active_in, active_count}
use talkertive_chat_app.Rooms.Kinds.{is_direct, is_group}
use talkertive_chat_app.Rooms.Keys.{room_detail_key, room_list_key}

abbrev pub room_list_ttl_ms : ℕ
room_list_ttl_ms = 60_000

abbrev pub room_detail_ttl_ms : ℕ
room_detail_ttl_ms = 120_000

abbrev pub summary_of : User → UserSummary
summary_of u = record { id = u.id; name = u.name; image = u.image }

abbrev pub same_category : RoomCategory → RoomCategory → Bool
same_category study study = true
same_category sports sports = true
same_category food food = true
same_category travel travel = true
same_category hobby hobby = true
same_category culture culture = true
same_category tech tech = true
same_category etc etc = true
same_category _ _ = false

abbrev pub has_category : RoomCategory → Option RoomCategory → Bool
has_category c none = false
has_category c (some d) = same_category c d

-- `date: { gte: now }`: a room with no date is not found.
abbrev pub is_from : ℕ → Option ℕ → Bool
is_from now none = false
is_from now (some t) = leb now t

abbrev pub time_or_zero : Option ℕ → ℕ
time_or_zero none = 0
time_or_zero (some t) = t

-- The parameters of `findAllGroupRooms` that the controller passes.
pub record RoomListQuery : Type 0 where
  pub skip : Option ℕ
  pub count : Option ℕ
  pub cursor : Option String
  pub search : Option String
  pub category : Option RoomCategory

-- One room of `findMyRooms`.
pub record MyRoom : Type 0 where
  pub room : Room
  pub members : List (RoomMember × Option UserSummary)
  pub member_count : ℕ
  pub my_role : Option RoomMemberRole
  pub last_message : Option Message
  pub unread_count : ℕ

abbrev pub last_time : MyRoom → ℕ
last_time r = time_or_zero (Option.map (λ m. m.created_at) r.last_message)

-- `...(lastReadAt ? { createdAt: { gt: lastReadAt } } : {})`
abbrev pub is_after : Option ℕ → Message → Bool
is_after none m = true
is_after (some t) m = ltb t m.created_at

abbrev pub last_read_of : Option RoomMember → Option ℕ
last_read_of none = none
last_read_of (some m) = m.last_read_at

module _ (p : Clients) where
  abbrev pub with_user : World → RoomMember → RoomMember × Option UserSummary
  with_user w m = (m, Option.map summary_of (p.user.find_unique m.user_id w.users))

  -- `findUnique({ where: { id, type } })`
  abbrev pub find_room_of : (RoomType → Bool) → String → World → Option Room
  find_room_of q room_id w = elim (p.room.find_unique room_id w.rooms) [
    | none ↦ none
    | some r ↦ if q r.type then some r else none
  ]

  abbrev pub owners_of : String → World → List (RoomMember × Option UserSummary)
  owners_of room_id w =
      map (with_user w)
        (p.room_member.find_many (λ m. m.room_id == room_id && is_owner_role m.role) w.room_members)

  abbrev pub group_detail : World → Room → GroupRoomDetail
  group_detail w r = record { room = r; members = owners_of r.id w }

  unfoldable pub find_one_group_room : ℕ → String → Action Cached
  unfolding room_detail_key
  find_one_group_room now room_id w = elim (p.cache.get now (room_detail_key room_id) w.cache) [
    | some cached ↦ (ok cached, w)
    | none ↦ elim (find_room_of is_group room_id w) [
      | none ↦ throw (not_found "채팅방을 찾을 수 없습니다.") w
      | some r ↦
          let detail = room_detail (group_detail w r) in
          (
            ok detail,
            record w {
              cache = p.cache.set now (room_detail_key room_id) detail room_detail_ttl_ms w.cache;
            },
          )
    ]
  ]

  -- `...(search && { name: { contains: search, mode: 'insensitive' } })`
  abbrev pub matches_search : Option String → Room → Bool
  matches_search none r = true
  matches_search (some s) r = if s == "" then true else p.contains r.name s

  abbrev pub matches_category : Option RoomCategory → Room → Bool
  matches_category none r = true
  matches_category (some c) r = has_category c r.category

  -- The `where` of `findAllGroupRooms`.
  abbrev pub is_listed : ℕ → RoomListQuery → Room → Bool
  is_listed now q r =
      is_group r.type
      && is_from now r.date
      && matches_search q.search r
      && matches_category q.category r

  abbrev pub page_args : RoomListQuery → Page Room String
  page_args q = record {
    order = ascending (λ (r : Room). time_or_zero r.date);
    skip = time_or_zero q.skip;
    take = q.count;
    cursor = q.cursor;
  }

  -- `_count: { select: { members: true, likes: true } }`
  abbrev pub group_summary : World → Room → GroupRoomSummary
  group_summary w r = record {
    room = r;
    members = p.room_member.count (λ m. m.room_id == r.id) w.room_members;
    likes = p.like.count (λ l. l.room_id == r.id) w.likes;
  }

  unfoldable pub list_key : RoomListQuery → String
  unfolding room_list_key
  list_key q = room_list_key q.skip q.count q.search q.category

  unfoldable pub find_all_group_rooms : ℕ → RoomListQuery → Action Cached
  unfolding list_key
  find_all_group_rooms now q w = elim (p.cache.get now (list_key q) w.cache) [
    | some cached ↦ (ok cached, w)
    | none ↦
        let found = p.room.find_page (page_args q) (is_listed now q) w.rooms in
        let result = room_list (map (group_summary w) found) in
        (
          ok result,
          record w { cache = p.cache.set now (list_key q) result room_list_ttl_ms w.cache },
        )
  ]

  -- The newest message of a room that is not deleted: `orderBy: desc`, `take: 1`.
  abbrev pub last_message_of : String → World → Option Message
  last_message_of room_id w = head? (
      p.message.find_page
        (record {
          order = descending (λ (m : Message). m.created_at);
          skip = 0;
          take = some 1;
          cursor = none;
        })
        (λ m. m.room_id == room_id && is_none m.deleted_at) w.messages)

  abbrev pub unread_of : String → Option ℕ → World → ℕ
  unread_of room_id last_read w =
      p.message.count (λ m. m.room_id == room_id && is_none m.deleted_at && is_after last_read m)
        w.messages

  abbrev pub active_members_of : String → World → List RoomMember
  active_members_of room_id w = p.room_member.find_many (is_active_in room_id) w.room_members

  abbrev pub my_room : String → World → Room → MyRoom
  my_room user_id w r =
      let members = active_members_of r.id w in
      let mine = find (λ m. m.user_id == user_id) members in
      record {
        room = r;
        members = map (with_user w) members;
        member_count = active_count p r.id w;
        my_role = Option.map (λ m. m.role) mine;
        last_message = last_message_of r.id w;
        unread_count = unread_of r.id (last_read_of mine) w;
      }

  -- `members: { some: { userId, leftAt: null } }`
  abbrev pub takes_part_in : String → World → Room → Bool
  takes_part_in user_id w r = elim (find_member p r.id user_id w) [
    | none ↦ false
    | some m ↦ is_none m.left_at
  ]

  unfoldable pub find_my_rooms : String → World → List MyRoom
  find_my_rooms user_id w =
      sort (descending last_time)
        (map (my_room user_id w) (p.room.find_many (takes_part_in user_id w) w.rooms))

  unfoldable pub find_one_direct_room :
      String → String → Action (Room × List (RoomMember × Option UserSummary))
  find_one_direct_room user_id room_id w = elim (find_room_of is_direct room_id w) [
    | none ↦ throw (not_found "채팅방을 찾을 수 없습니다.") w
    | some r ↦
        let others =
          p.room_member.find_many (λ m. m.room_id == r.id && not (m.user_id == user_id))
            w.room_members in
        elim (find_member p room_id user_id w) [
          | none ↦ throw (forbidden "접근 권한이 없습니다.") w
          | some m ↦ (ok (r, map (with_user w) others), w)
        ]
  ]
