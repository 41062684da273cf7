-- ===== src/World/State.antt =====
-- The state that the services share, and the third-party clients that they hold.
use talkertive_chat_app.Base.{ℕ, String, Bool, Option, List, string_eq, pair_eq}
use talkertive_chat_app.Prisma.{Delegate}
use talkertive_chat_app.Schema.{
  User, Room, RoomSchedule, RoomLike, RoomMember, Message, MessageAttachment, Banner,
}
use talkertive_chat_app.World.CacheManager.{Cache, Entries}

-- `select: { id: true, name: true, image: true }`
pub record UserSummary : Type 0 where
  pub id : String
  pub name : Option String
  pub image : Option String

-- `findOneGroupRoom`: a room with its owners, each with the user's summary.
pub record GroupRoomDetail : Type 0 where
  pub room : Room
  pub members : List (RoomMember × Option UserSummary)

-- `findAllGroupRooms`: a room with the counts of its member and like rows.
pub record GroupRoomSummary : Type 0 where
  pub room : Room
  pub members : ℕ
  pub likes : ℕ

-- What the services put into the cache; a reader takes it back as it stands.
pub data Cached : Type 0 where
  room_detail : GroupRoomDetail → Cached
  room_list : List GroupRoomSummary → Cached
  banner_list : List Banner → Cached

pub data S3Command : Type 0 where
  put_object : String → S3Command
  delete_object : String → S3Command

pub record World : Type 0 where
  pub users : List User
  pub rooms : List Room
  pub schedules : List RoomSchedule
  pub likes : List RoomLike
  pub room_members : List RoomMember
  pub messages : List Message
  pub attachments : List MessageAttachment
  pub banners : List Banner
  pub cache : Entries Cached
  -- the commands that S3 has carried out, the latest first
  pub s3 : List S3Command

abbrev pub user_key : User → String
user_key r = r.id

abbrev pub room_key : Room → String
room_key r = r.id

abbrev pub schedule_key : RoomSchedule → String
schedule_key r = r.id

-- `@@unique([roomId, userId])`
abbrev pub like_key : RoomLike → String × String
like_key r = (r.room_id, r.user_id)

abbrev pub member_key : RoomMember → String × String
member_key r = (r.room_id, r.user_id)

abbrev pub message_key : Message → String
message_key r = r.id

abbrev pub attachment_key : MessageAttachment → String
attachment_key r = r.id

abbrev pub banner_key : Banner → String
banner_key r = r.id

-- The clients that are injected into the services: one Prisma delegate for each model, the cache
-- manager, whether S3 carries a command out, and the settings and functions that they use.
pub record Clients : Type 0 where
  pub user : Delegate user_key
  pub room : Delegate room_key
  pub schedule : Delegate schedule_key
  pub like : Delegate like_key
  pub room_member : Delegate member_key
  pub message : Delegate message_key
  pub attachment : Delegate attachment_key
  pub banner : Delegate banner_key
  pub cache : Cache Cached
  pub s3_accepts : S3Command → Bool
  -- `process.env.CLOUDFRONT_DOMAIN`
  pub cloudfront_domain : String
  -- `slugify(name, { lower: true, strict: true })`
  pub slugify : String → String
  -- `{ contains: search, mode: 'insensitive' }`
  pub contains : Option String → String → Bool

-- What a request draws from its surroundings: the identifiers that Prisma generates for the row
-- that it creates and for the rows below it, the `uuid()` of an upload, the random suffix of a
-- slug, and the time.
pub record Fresh : Type 0 where
  pub id : String
  pub child_id : ℕ → String
  pub uuid : String
  pub suffix : String
  pub now : ℕ
