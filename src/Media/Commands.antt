-- ===== src/Media/Commands.antt =====
-- What the commands to S3 leave alone: all but the list of them.
use text.Mathlib.Text.{starts_with}
use talkertive_chat_app.Base.{
  String, not, ◌≡◌, refl, Option, none, some, List, inl, inr, Bool-cases,
}
use talkertive_chat_app.World.{World, Clients, S3Command, put_object, pure}
use talkertive_chat_app.World.Keeps.{Keeps, bind-Keeps}
use talkertive_chat_app.Media.{
  UploadedFile, get_media_url, send, upload, delete_if_exists, url_prefix,
}

module _ {B : Type 0} (p : Clients) (g : World → B)
    (blind : (w : World) (s : List S3Command) → g (record w { s3 = s }) ≡ g w) where
  send-Keeps : (c : S3Command) → Keeps g (send p c)
  unfolding send
  send-Keeps c w = elim (Bool-cases (p.s3_accepts c)) [
    | inl taken ↦ rw taken (blind w _)
    | inr refused ↦ rw refused refl
  ]

  pub delete_if_exists-Keeps : (url : Option String) → Keeps g (delete_if_exists p url)
  unfolding delete_if_exists
  delete_if_exists-Keeps none w = refl
  delete_if_exists-Keeps (some url) w = elim (Bool-cases (not (starts_with url (url_prefix p)))) [
    | inl foreign ↦ rw foreign refl
    | inr own ↦ rw own (send-Keeps _ w)
  ]

  pub upload-Keeps : (f : UploadedFile) (key : String) → Keeps g (upload p f key)
  unfolding upload
  upload-Keeps f key w =
      bind-Keeps g (send p (put_object key)) (λ _. pure (get_media_url p key))
        (send-Keeps (put_object key)) (λ _ _. refl) w
