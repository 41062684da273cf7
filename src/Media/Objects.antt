-- ===== src/Media/Objects.antt =====
-- Which objects `MediaService` deletes: those that its own addresses name, and no other.
use Prim.Native.String.{len, slice}
use text.Mathlib.Text.{starts_with}
use text.Mathlib.TextPositions.{starts_with-append, slice-append_right, len-append}
use talkertive_chat_app.Base.{String, true, false, ◌≡◌, refl, some, ◌∷◌, arith}
use talkertive_chat_app.World.{World, Clients, ok, delete_object, put_object}
use talkertive_chat_app.Media.{
  get_media_url, delete_if_exists, url_prefix, send, upload, UploadedFile,
}

module _ (p : Clients) where
  key_of_url :
      (key : String)
      → (starts_with (get_media_url p key) (url_prefix p) ≡ true)
        × (slice (get_media_url p key) (len (url_prefix p)) (len (get_media_url p key)) ≡ key)
  unfolding get_media_url
  key_of_url key = (
    starts_with-append (url_prefix p) key,
    rw (len-append (url_prefix p) key) (slice-append_right (url_prefix p) key),
  )

  upload_eq :
      (f : UploadedFile) (key : String) (w : World)
      → p.s3_accepts (put_object key) ≡ true
      → upload p f key w ≡ (ok (get_media_url p key), record w { s3 = put_object key ∷ w.s3 })
  unfolding upload
  upload_eq f key w put = rw (send, put) refl

  delete_if_exists_eq :
      (key : String) (w : World)
      → p.s3_accepts (delete_object key) ≡ true
      → delete_if_exists p (some (get_media_url p key)) w
        ≡ (ok tt, record w { s3 = delete_object key ∷ w.s3 })
  unfolding delete_if_exists
  delete_if_exists_eq key w deleted =
      let (own, named) = key_of_url key in rw (own, named, deleted) refl

  delete_if_exists_foreign :
      (url : String) (w : World)
      → starts_with url (url_prefix p) ≡ false
      → delete_if_exists p (some url) w ≡ (ok tt, w)
  unfolding delete_if_exists
  delete_if_exists_foreign url w foreign = rw foreign refl

  -- What an upload stores can be deleted by the address that it returns: where S3 accepts both,
  -- the address of the upload makes `deleteIfExists` delete the very key that was put. An address
  -- that is not under the service's own prefix deletes nothing.
  upload-delete :
      (f : UploadedFile) (key url : String) (w : World)
      → (p.s3_accepts (put_object key) ≡ true
          → p.s3_accepts (delete_object key) ≡ true
          → (upload p f key w).0 ≡ ok url
          → delete_if_exists p (some url) (upload p f key w).1
            ≡ (ok tt, record w { s3 = delete_object key ∷ put_object key ∷ w.s3 }))
        × (starts_with url (url_prefix p) ≡ false → delete_if_exists p (some url) w ≡ (ok tt, w))
  upload-delete f key url w = (
    λ put deleted given.
        let done = upload_eq f key w put in
        let here : url ≡ get_media_url p key = ground arith in
        rw (here, done) (delete_if_exists_eq key _ deleted),
    λ foreign. delete_if_exists_foreign url w foreign,
  )
