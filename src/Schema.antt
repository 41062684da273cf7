-- ===== src/Schema.antt =====
-- The database schema, backend/prisma/schema.prisma: a record for each model that the services
-- read or write. Identifiers (`cuid()` texts) are texts, a `DateTime` is its time in milliseconds
-- since the epoch, and a nullable column is an `Option`. `updatedAt` columns are left out, since
-- no service reads them.
use talkertive_chat_app.Base.{ℕ, String, Option, Bool}

pub record User : Type 0 where
  pub id : String
  pub name : Option String
  pub email : Option String
  pub image : Option String
  pub hashed_password : Option String
  pub description : Option String
  pub role : String
  pub created_at : ℕ

pub data RoomType : Type 0 where
  direct group : RoomType

pub data RoomCategory : Type 0 where
  study sports food travel hobby culture tech etc : RoomCategory

pub record Room : Type 0 where
  pub id : String
  pub type : RoomType
  pub name : Option String
  pub slug : Option String
  pub cover_image : Option String
  pub profile_image : Option String
  pub description : Option String
  pub short_description : Option String
  pub member_limit : Option ℕ
  pub category : Option RoomCategory
  pub address : Option String
  pub date : Option ℕ
  pub created_at : ℕ

pub record RoomSchedule : Type 0 where
  pub id : String
  pub room_id : String
  pub name : String
  pub time : ℕ
  pub created_at : ℕ

pub record RoomLike : Type 0 where
  pub id : String
  pub room_id : String
  pub user_id : String

pub data RoomMemberRole : Type 0 where
  owner member : RoomMemberRole

pub record RoomMember : Type 0 where
  pub id : String
  pub room_id : String
  pub user_id : String
  pub role : RoomMemberRole
  pub invited_by : Option String
  -- `none` while the user takes part
  pub left_at : Option ℕ
  pub last_read_at : Option ℕ
  pub created_at : ℕ

pub record Message : Type 0 where
  pub id : String
  pub room_id : String
  pub sender_id : String
  pub content : Option String
  pub is_edited : Bool
  -- `none` unless the message was soft-deleted
  pub deleted_at : Option ℕ
  pub created_at : ℕ

pub data AttachmentType : Type 0 where
  image file : AttachmentType

pub record MessageAttachment : Type 0 where
  pub id : String
  pub message_id : String
  pub type : AttachmentType
  pub url : String
  pub name : String
  pub size : ℕ
  pub mime_type : String

pub record Banner : Type 0 where
  pub id : String
  pub image_url : String
  pub link_url : String
  pub created_at : ℕ
