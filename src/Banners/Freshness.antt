-- ===== src/Banners/Freshness.antt =====
-- Which copy of the banners the home page is given after a change.
use mathlib.Core.Option
use talkertive_chat_app.Base.{ℕ, String, true, ◌≡◌, refl, Option, some, arith, is_none}
use talkertive_chat_app.Schema.{Banner}
use talkertive_chat_app.World.{
  World, Clients, Fresh, gets, throw_if, not_found, ◌>>=◌, ◌>>◌, create_banner, update_banner_row,
  Cached, banner_list, ok, is_ok,
}
use talkertive_chat_app.World.Keeps.{Keeps, bind-Keeps, throw_if-Keeps}
use talkertive_chat_app.Media.{
  UploadedFile, build_key, upload, delete_if_exists, upload_banner, update_banner_image,
}
use talkertive_chat_app.Media.Commands.{delete_if_exists-Keeps, upload-Keeps}
use talkertive_chat_app.Banners.{find_all, update, delete, all_banners, banner_all_key}

module _ (p : Clients) where
  create_banner-Keeps : (b : Banner) → Keeps (λ w. w.cache) (create_banner p b)
  unfolding create_banner
  create_banner-Keeps b w = refl

  update_banner_row-Keeps :
      (id : String) (f : Banner → Banner) → Keeps (λ w. w.cache) (update_banner_row p id f)
  unfolding update_banner_row
  update_banner_row-Keeps id f w = refl

  upload_banner-Keeps :
      (e : Fresh) (f : UploadedFile) (link : String)
      → Keeps (λ w. w.cache) (upload_banner p e f link)
  unfolding upload_banner
  upload_banner-Keeps e f link =
      let key = build_key e "banners" f.originalname in
      let made : String → Banner =
        λ url. record { id = e.id; image_url = url; link_url = link; created_at = e.now } in
      bind-Keeps (λ w. w.cache) (upload p f key) (λ url. create_banner p (made url))
        (upload-Keeps p (λ w. w.cache) (λ w s. refl) f key) (λ url. create_banner-Keeps (made url))

  update_banner_image-Keeps :
      (e : Fresh) (id : String) (f : UploadedFile)
      → Keeps (λ w. w.cache) (update_banner_image p e id f)
  unfolding update_banner_image
  update_banner_image-Keeps e id f =
      let g = λ (w : World). w.cache in
      let missing = not_found "배너를 찾을 수 없습니다." in
      let key = build_key e "banners" f.originalname in
      let shown : String → Banner → Banner = λ url b. record b { image_url = url } in
      let store = λ (url : String). update_banner_row p id (shown url) in
      let old = λ (b : Option Banner). delete_if_exists p (Option.map (λ b. b.image_url) b) in
      let new = upload p f key >>= store in
      let new-Keeps =
        bind-Keeps g (upload p f key) store (upload-Keeps p (λ w. w.cache) (λ w s. refl) f key)
          (λ url. update_banner_row-Keeps id (shown url)) in
      bind-Keeps g (gets (λ w. p.banner.find_unique id w.banners))
        (λ b. throw_if (is_none b) missing >> (old b >> new)) (λ _. refl)
        (λ b.
          bind-Keeps g (throw_if (is_none b) missing) (λ _. old b >> new)
            (throw_if-Keeps g (is_none b) missing)
            (λ _.
              bind-Keeps g (old b) (λ _. new)
                (delete_if_exists-Keeps p (λ w. w.cache) (λ w s. refl) _) (λ _. new-Keeps)))

  -- After an update of a banner's link, or a deletion of a banner, that succeeds, the next reader
  -- is given the banners as the table holds them.
  banner_changes_seen :
      (now : ℕ) (id : String) (link : Option String) (w : World)
      → (is_ok (update p id link w).0 ≡ true
          → (find_all p now (update p id link w).1).0
            ≡ ok (banner_list (all_banners p (update p id link w).1)))
        × (is_ok (delete p id w).0 ≡ true
            → (find_all p now (delete p id w).1).0
              ≡ ok (banner_list (all_banners p (delete p id w).1)))
  unfolding update delete find_all
  banner_changes_seen now id link w =
      let clean = p.cache.get-del_self now banner_all_key w.cache in
      (λ done. ground (arith, clean), λ done. ground (arith, clean))

  -- While a copy of the banners is in the cache, a reader is given that copy also after an upload
  -- of a banner or of a banner's new image.
  banner_uploads_unseen :
      (e : Fresh) (now : ℕ) (id link : String) (f : UploadedFile) (w : World) (c : Cached)
      → p.cache.get now banner_all_key w.cache ≡ some c
      → ((find_all p now (upload_banner p e f link w).1).0 ≡ ok c)
        × ((find_all p now (update_banner_image p e id f w).1).0 ≡ ok c)
  unfolding find_all
  banner_uploads_unseen e now id link f w c hit = (
    ground (arith, upload_banner-Keeps e f link w),
    ground (arith, update_banner_image-Keeps e id f w),
  )
