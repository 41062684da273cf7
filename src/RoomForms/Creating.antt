-- ===== src/RoomForms/Creating.antt =====
-- What the form for a new group room leaves behind where an image is not taken.
use talkertive_chat_app.Base.{
  String, List, not, true, false, ◌≡◌, refl, Option, none, some, arith, id_iff, string_eq, inl, inr,
}
use talkertive_chat_app.Schema.{Room}
use talkertive_chat_app.World.{
  World, Clients, Fresh, Action, is_ok, gets, throw_if, bad_request, update_room, ◌>>=◌, ◌>>◌,
}
use talkertive_chat_app.World.Keeps.{Keeps, throw_if-Keeps}
use talkertive_chat_app.World.Preserves.{KeepsFailing, bind-KeepsFailing}
use talkertive_chat_app.Rooms.{CreateGroupRoomDto, create_group_room, group_room, slug_of}
use talkertive_chat_app.Rooms.Creation.{create_group_room_writes}
use talkertive_chat_app.Media.{
  UploadedFile, upload_room_cover, assert_room_owner, delete_if_exists, upload, cover_of, build_key,
  accepts_image, ◌+++◌,
}
use talkertive_chat_app.Media.Commands.{delete_if_exists-Keeps, upload-Keeps}
use talkertive_chat_app.RoomForms.{
  Platform, RoomCreator, alerted, create_body, handle_create, request_cover, is_valid_limit,
}

module _ (p : Clients) where
  abbrev rooms : World → List Room
  rooms w = w.rooms

  update_room-KeepsFailing :
      (id : String) (f : Room → Room) → KeepsFailing rooms (update_room p id f)
  unfolding update_room
  update_room-KeepsFailing id f w failed = ground arith

  assert_room_owner-Keeps : (r u : String) → Keeps rooms (assert_room_owner p r u)
  unfolding assert_room_owner
  assert_room_owner-Keeps r u w = ground arith

  -- A cover that is not taken leaves the rooms as they were.
  upload_room_cover-KeepsFailing :
      (e : Fresh) (f : UploadedFile) (r u : String)
      → KeepsFailing rooms (upload_room_cover p e f r u)
  unfolding upload_room_cover
  upload_room_cover-KeepsFailing e f r u =
      bind-KeepsFailing rooms (assert_room_owner p r u) (λ _. gets read >>= λ x. replace x)
        (assert_room_owner-Keeps r u)
        (λ _.
          bind-KeepsFailing rooms (gets read) replace (λ w. refl)
            (λ x.
              bind-KeepsFailing rooms (delete_if_exists p (cover_of x))
                (λ _. upload p f key >>= store)
                (delete_if_exists-Keeps p rooms (λ w s. refl) (cover_of x))
                (λ _.
                  bind-KeepsFailing rooms (upload p f key) store
                    (upload-Keeps p rooms (λ w s. refl) f key)
                    (λ url.
                      update_room-KeepsFailing r (λ x. record x { cover_image = some url })))))
    where
      key : String
      key = build_key e ("rooms/" +++ r +++ "/cover") f.originalname

      read : World → Option Room
      read w = p.room.find_unique r w.rooms

      store : String → Action Room
      store url = update_room p r (λ x. record x { cover_image = some url })

      replace : Option Room → Action Room
      replace x = delete_if_exists p (cover_of x) >> (upload p f key >>= store)

  request_cover-KeepsFailing :
      (e : Fresh) (subject : Option String) (id : String) (f : UploadedFile)
      → KeepsFailing rooms (request_cover p e subject id f)
  unfolding request_cover
  request_cover-KeepsFailing e none id f = λ w failed. refl
  request_cover-KeepsFailing e (some u) id f =
      bind-KeepsFailing rooms (throw_if (not (accepts_image f)) (bad_request "이미지 파일만 업로드 가능합니다."))
        (λ _. upload_room_cover p e f id u)
        (throw_if-Keeps rooms (not (accepts_image f)) (bad_request "이미지 파일만 업로드 가능합니다."))
        (λ _. upload_room_cover-KeepsFailing e f id u)

  -- Where the room of a form is made but its cover image is not taken, the form shows an alert that
  -- the making has failed, and yet the room is stored.
  pub handle_create-kept :
      (platform : Platform) (e e₁ e₂ : Fresh) (u : String) (c : RoomCreator) (w : World)
      (d : CreateGroupRoomDto) (f : UploadedFile)
      → create_body platform c.form ≡ some d
      → is_valid_limit d.member_limit ≡ true
      → is_ok (create_group_room p e u d w).0 ≡ true
      → c.cover_file ≡ some f
      → is_ok (request_cover p e₁ (some u) e.id f (create_group_room p e u d w).1).0 ≡ false
      → let (o, w') = handle_create p platform e e₁ e₂ (some u) c w in
        (o ≡ alerted)
        × (p.room.find_unique e.id w'.rooms ≡ some (group_room e (slug_of p e d.name) d))
  unfolding handle_create
  handle_create-kept platform e e₁ e₂ u c w d f body valid made chosen refused =
      elim (create_group_room_writes p e u d w) [
        | inl (failed, same) ↦ absurd (ground arith)
        | inr (done, new_room, admitted, written, members) ↦
            let room = group_room e (slug_of p e d.name) d in
            let w₁ = (create_group_room p e u d w).1 in
            let kept = request_cover-KeepsFailing e₁ (some u) e.id f w₁ refused in
            (
              ground arith,
              ground (arith, kept, p.room.find-create room w.rooms e.id new_room, id_iff e.id e.id),
            )
      ]
