-- ===== src/Media.antt =====
-- backend/src/media/media.service.ts, `MediaService`: uploads to S3 and the deletion of what they
-- replace; and the filters of backend/src/media/media.controller.ts. S3 is the list of the
-- commands that it has carried out.
pub mod Objects
pub mod Commands
use mathlib.Core.Option
use Prim.Native.Char.{code}
use Prim.Native.String
use Prim.Native.String.{len, slice}
use text.Mathlib.Text.{starts_with}
use talkertive_chat_app.Base.{
  String, Bool, true, false, not, ◌||◌, Option, none, some, List, [], ◌∷◌, ◌==◌, nat_beq,
  if◌then◌else◌, is_none,
}
use talkertive_chat_app.Schema.{User, Room, Banner}
use talkertive_chat_app.World.{
  ok, World, Clients, Fresh, S3Command, put_object, delete_object, Action, pure, throw, gets, ◌>>=◌,
  ◌>>◌, throw_if, not_found, forbidden, bad_request, s3_error, update_user, update_room,
  create_banner, update_banner_row,
}
use talkertive_chat_app.RoomMembers.{find_member, holds_owner}

infixr 65 ◌+++◌
abbrev pub ◌+++◌ : String → String → String
s +++ t = String.◌++◌ s t

-- A file as Multer hands it over.
pub record UploadedFile : Type 0 where
  pub originalname : String
  pub mimetype : String

-- `originalname.split('.').pop()`: what follows the last dot, or all where there is none.
abbrev pub after_last_dot : String → String → String
after_last_dot best String.[] = best
after_last_dot best (String.◌∷◌ c s) = after_last_dot (if nat_beq (code c) b'.' then s else best) s

unfoldable pub build_key : Fresh → String → String → String
build_key e folder originalname =
    folder +++ "/" +++ e.uuid +++ "." +++ after_last_dot originalname originalname

-- The `fileFilter` of the image endpoints, and that of the message attachments.
unfoldable pub accepts_image : UploadedFile → Bool
accepts_image f = starts_with f.mimetype "image/"

abbrev pub allowed_attachment_mimetypes : List String
allowed_attachment_mimetypes =
    "image/" ∷ "application/pdf" ∷ "application/msword"
    ∷ "application/vnd.openxmlformats-officedocument.wordprocessingml.document"
    ∷ "application/vnd.ms-excel"
    ∷ "application/vnd.openxmlformats-officedocument.spreadsheetml.sheet" ∷ []

-- `types.some((type) => mimetype.startsWith(type))`
abbrev pub starts_with_any : String → List String → Bool
starts_with_any s [] = false
starts_with_any s (t ∷ ts) = starts_with s t || starts_with_any s ts

unfoldable pub accepts_attachment : UploadedFile → Bool
accepts_attachment f = starts_with_any f.mimetype allowed_attachment_mimetypes

-- `{ id, name, email, image }`
pub record UserProfile : Type 0 where
  pub id : String
  pub name : Option String
  pub email : Option String
  pub image : Option String

abbrev pub profile_of : User → UserProfile
profile_of u = record { id = u.id; name = u.name; email = u.email; image = u.image }

abbrev pub image_of : Option User → Option String
image_of none = none
image_of (some u) = u.image

abbrev pub cover_of : Option Room → Option String
cover_of none = none
cover_of (some r) = r.cover_image

abbrev pub profile_image_of : Option Room → Option String
profile_image_of none = none
profile_image_of (some r) = r.profile_image

module _ (p : Clients) where
  -- `https://${cloudFrontDomain}/`
  abbrev pub url_prefix : String
  url_prefix = "https://" +++ p.cloudfront_domain +++ "/"

  unfoldable pub get_media_url : String → String
  get_media_url key = url_prefix +++ key

  -- `s3Client.send(command)`
  unfoldable pub send : S3Command → Action (Unit {0})
  send c w = if p.s3_accepts c then (ok tt, record w { s3 = c ∷ w.s3 }) else throw s3_error w

  unfoldable pub upload : UploadedFile → String → Action String
  unfolding send get_media_url
  upload file key = send (put_object key) >> pure (get_media_url key)

  unfoldable pub delete_if_exists : Option String → Action (Unit {0})
  unfolding send
  delete_if_exists none = pure tt
  delete_if_exists (some url) =
      if not (starts_with url url_prefix)
      then pure tt
      else send (delete_object (slice url (len url_prefix) (len url)))

  unfoldable pub assert_room_owner : String → String → Action (Unit {0})
  assert_room_owner room_id user_id = do
    m ← gets (find_member p room_id user_id)
    throw_if (is_none m) (not_found "채팅방을 찾을 수 없습니다.")
    throw_if (not (holds_owner m)) (forbidden "방장만 이미지를 변경할 수 있습니다.")

  unfoldable pub upload_user_profile : Fresh → UploadedFile → String → Action UserProfile
  unfolding delete_if_exists upload build_key update_user
  upload_user_profile e file user_id = do
    existing ← gets (λ w. p.user.find_unique user_id w.users)
    delete_if_exists (image_of existing)
    url ← upload file (build_key e ("users/" +++ user_id +++ "/profile") file.originalname)
    user ← update_user p user_id (λ u. record u { image = some url })
    pure (profile_of user)

  unfoldable pub upload_room_cover : Fresh → UploadedFile → String → String → Action Room
  unfolding assert_room_owner delete_if_exists upload build_key update_room
  upload_room_cover e file room_id user_id = do
    assert_room_owner room_id user_id
    existing ← gets (λ w. p.room.find_unique room_id w.rooms)
    delete_if_exists (cover_of existing)
    url ← upload file (build_key e ("rooms/" +++ room_id +++ "/cover") file.originalname)
    update_room p room_id (λ r. record r { cover_image = some url })

  unfoldable pub upload_room_profile : Fresh → UploadedFile → String → String → Action Room
  unfolding assert_room_owner delete_if_exists upload build_key update_room
  upload_room_profile e file room_id user_id = do
    assert_room_owner room_id user_id
    existing ← gets (λ w. p.room.find_unique room_id w.rooms)
    delete_if_exists (profile_image_of existing)
    url ← upload file (build_key e ("rooms/" +++ room_id +++ "/profile") file.originalname)
    update_room p room_id (λ r. record r { profile_image = some url })

  unfoldable pub upload_banner : Fresh → UploadedFile → String → Action Banner
  unfolding upload build_key create_banner
  upload_banner e file link_url = do
    url ← upload file (build_key e "banners" file.originalname)
    create_banner p (record { id = e.id; image_url = url; link_url = link_url; created_at = e.now })

  unfoldable pub update_banner_image : Fresh → String → UploadedFile → Action Banner
  unfolding delete_if_exists upload build_key update_banner_row
  update_banner_image e id file = do
    banner ← gets (λ w. p.banner.find_unique id w.banners)
    throw_if (is_none banner) (not_found "배너를 찾을 수 없습니다.")
    delete_if_exists (Option.map (λ b. b.image_url) banner)
    url ← upload file (build_key e "banners" file.originalname)
    update_banner_row p id (λ b. record b { image_url = url })

  unfoldable pub upload_message_attachment : Fresh → UploadedFile → String → Action String
  unfolding upload build_key
  upload_message_attachment e file room_id =
      upload file (build_key e ("messages/" +++ room_id) file.originalname)
