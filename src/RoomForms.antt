-- ===== src/RoomForms.antt =====
-- frontend/app/(main)/rooms/new/GroupRoomCreator.tsx and
-- frontend/app/(main)/rooms/[roomId]/edit/GroupRoomEditor.tsx with the actions.ts beside each: the
-- forms for a group room and what they send to the backend. The previews, the routing and the state
-- of loading are left out: a request is answered before the form is used again.
pub mod Saving
pub mod Creating
use mathlib.Core.Option
use talkertive_chat_app.Base.{
  ℕ, leb, String, Bool, true, false, not, Option, none, some, ◌==◌, string_eq, if◌then◌else◌,
}
use talkertive_chat_app.Schema.{Room, RoomCategory}
use talkertive_chat_app.World.{
  World, Clients, Fresh, Result, ok, err, Action, throw, throw_if, bad_request, unauthorized, pure,
  ◌>>=◌, ◌>>◌,
}
use talkertive_chat_app.Media.{
  UploadedFile, accepts_image, upload_room_cover, upload_room_profile, ◌+++◌,
}
use talkertive_chat_app.Rooms.{
  CreateGroupRoomDto, UpdateGroupRoomDto, Patch, without_null, create_group_room, update_group_room,
}
use talkertive_chat_app.Rooms.Keys.{decimal}

-- The fields of either form, each a text as its input holds it.
pub record RoomForm : Type 0 where
  pub name : String
  pub description : String
  pub short_description : String
  pub member_limit : String
  pub category : Option RoomCategory
  pub address : String
  pub date : String

pub record RoomCreator : Type 0 where
  pub form : RoomForm
  pub cover_file : Option UploadedFile
  pub profile_file : Option UploadedFile

pub record RoomEditor : Type 0 where
  pub form : RoomForm
  pub cover_image : Option String
  pub profile_image : Option String

-- Where the form leaves to, the room's page, or that it shows an alert.
pub data Outcome : Type 0 where
  pushed : String → Outcome
  alerted : Outcome

-- `x ?? ''`
abbrev pub or_empty : Option String → String
or_empty none = ""
or_empty (some s) = s

-- `x || undefined`
abbrev pub or_undefined : String → Option String
or_undefined s = if s == "" then none else some s

-- `memberLimit?.toString() ?? ''`
abbrev pub limit_text : Option ℕ → String
limit_text none = ""
limit_text (some n) = decimal n

-- `parse_int` is `parseInt(text, 10)`, none for NaN, which JSON turns into null, and 0 for a
-- negative number, which the validation refuses as it does 0; `local_time` is
-- the time that `new Date(text)` reads in the zone of the client, none for an invalid date, whose
-- `toISOString` throws; `utc_minute` is `toISOString().slice(0, 16)` of a time.
pub record Platform : Type 0 where
  pub parse_int : String → Option ℕ
  pub local_time : String → Option ℕ
  pub utc_minute : ℕ → String

module _ (platform : Platform) where
  open platform use {parse_int, local_time, utc_minute}

  -- `memberLimit ? parseInt(memberLimit, 10) : undefined`
  abbrev pub limit_of : String → Patch ℕ
  limit_of s = if s == "" then none else some (parse_int s)

  -- `date ? new Date(date).toISOString() : undefined`, none where it throws
  abbrev pub date_of : String → Option (Option ℕ)
  date_of s = if s == "" then some none else Option.map some (local_time s)

  abbrev pub date_text : Option ℕ → String
  date_text none = ""
  date_text (some t) = utc_minute t

  -- The `useState` calls of the editor, with the page's `initialData`.
  unfoldable pub initial_editor : Room → RoomEditor
  initial_editor r = record {
    form = record {
      name = or_empty r.name;
      description = or_empty r.description;
      short_description = or_empty r.short_description;
      member_limit = limit_text r.member_limit;
      category = r.category;
      address = or_empty r.address;
      date = date_text r.date;
    };
    cover_image = r.cover_image;
    profile_image = r.profile_image;
  }

  abbrev pub update_body_at : RoomForm → Option ℕ → UpdateGroupRoomDto
  update_body_at f t = record {
    name = Option.map some (or_undefined f.name);
    description = Option.map some (or_undefined f.description);
    short_description = Option.map some (or_undefined f.short_description);
    member_limit = limit_of f.member_limit;
    category = Option.map some f.category;
    address = Option.map some (or_undefined f.address);
    date = Option.map some t;
    cover_image = none;
    profile_image = none;
  }

  unfoldable pub update_body : RoomForm → Option UpdateGroupRoomDto
  update_body f = Option.map (update_body_at f) (date_of f.date)

  abbrev pub create_body_at : RoomForm → Option ℕ → CreateGroupRoomDto
  create_body_at f t = record {
    name = f.name;
    description = or_undefined f.description;
    short_description = or_undefined f.short_description;
    member_limit = without_null (limit_of f.member_limit);
    category = f.category;
    address = or_undefined f.address;
    date = t;
    cover_image = none;
    profile_image = none;
  }

  unfoldable pub create_body : RoomForm → Option CreateGroupRoomDto
  create_body f = Option.map (create_body_at f) (date_of f.date)

-- `@IsOptional() @IsInt() @Min(2)` of `CreateGroupRoomDto`; the other fields of a form pass.
abbrev pub is_valid_limit : Option ℕ → Bool
is_valid_limit none = true
is_valid_limit (some n) = leb 2 n

module _ (p : Clients) where
  -- `AccessTokenGuard`, with the subject of the session's token, if one verifies.
  abbrev pub as_user : {A : Type 0} → Option String → (String → Action A) → Action A
  as_user none act = throw unauthorized
  as_user (some user_id) act = act user_id

  abbrev pub refuse_limit : Option ℕ → Action (Unit {0})
  refuse_limit limit = throw_if (not (is_valid_limit limit)) (bad_request "memberLimit")

  -- actions.ts: each throws where the answer is not ok.
  unfoldable pub request_create : Fresh → Option String → CreateGroupRoomDto → Action Room
  request_create e subject d =
      as_user subject (λ u. refuse_limit d.member_limit >> create_group_room p e u d)

  unfoldable pub request_update : Option String → String → UpdateGroupRoomDto → Action Room
  request_update subject room_id d =
      as_user subject
        (λ u. refuse_limit (without_null d.member_limit) >> update_group_room p u room_id d)

  unfoldable pub request_cover : Fresh → Option String → String → UploadedFile → Action Room
  request_cover e subject room_id f = as_user subject (λ u.
      throw_if (not (accepts_image f)) (bad_request "이미지 파일만 업로드 가능합니다.")
      >> upload_room_cover p e f room_id u)

  unfoldable pub request_profile : Fresh → Option String → String → UploadedFile → Action Room
  request_profile e subject room_id f = as_user subject (λ u.
      throw_if (not (accepts_image f)) (bad_request "이미지 파일만 업로드 가능합니다.")
      >> upload_room_profile p e f room_id u)

  abbrev pub room_page : String → String
  room_page room_id = "/rooms/" +++ room_id

  abbrev pub outcome_of : Result String × World → Outcome × World
  outcome_of (ok path, w) = (pushed path, w)
  outcome_of (err x, w) = (alerted, w)

  -- `if (coverFile) await uploadRoomCover(roomId, formData)`
  abbrev pub if_chosen : Option UploadedFile → (UploadedFile → Action Room) → Action (Unit {0})
  if_chosen none act = pure tt
  if_chosen (some f) act = act f >> pure tt

  module _ (platform : Platform) where
    -- Each request draws its own identifiers and time.
    abbrev pub submit_create :
        Fresh → Fresh → Fresh → Option String → RoomCreator → CreateGroupRoomDto → Action String
    submit_create e e₁ e₂ subject c d = do
      room ← request_create e subject d
      if_chosen c.cover_file (request_cover e₁ subject room.id)
      if_chosen c.profile_file (request_profile e₂ subject room.id)
      pure (room_page room.id)

    unfoldable pub handle_create :
        Fresh → Fresh → Fresh → Option String → RoomCreator → World → Outcome × World
    unfolding create_body request_create request_cover request_profile
    handle_create e e₁ e₂ subject c w = elim (create_body platform c.form) [
      | none ↦ (alerted, w)
      | some d ↦ outcome_of (submit_create e e₁ e₂ subject c d w)
    ]

    unfoldable pub handle_save : Option String → String → RoomEditor → World → Outcome × World
    unfolding update_body request_update
    handle_save subject room_id ed w = elim (update_body platform ed.form) [
      | none ↦ (alerted, w)
      | some d ↦ outcome_of ((request_update subject room_id d >> pure (room_page room_id)) w)
    ]

    -- `handleFileChange` and `handleProfileFileChange` of the editor.
    unfoldable pub handle_file_change :
        Fresh → Option String → String → UploadedFile → RoomEditor → World → RoomEditor × World
    unfolding request_cover
    handle_file_change e subject room_id f ed w =
        let (r, w') = request_cover e subject room_id f w in
        (elim r [ ok room ↦ record ed { cover_image = room.cover_image } | err x ↦ ed ], w')

    unfoldable pub handle_profile_file_change :
        Fresh → Option String → String → UploadedFile → RoomEditor → World → RoomEditor × World
    unfolding request_profile
    handle_profile_file_change e subject room_id f ed w =
        let (r, w') = request_profile e subject room_id f w in
        (elim r [ ok room ↦ record ed { profile_image = room.profile_image } | err x ↦ ed ], w')
