-- ===== src/Banners.antt =====
-- backend/src/banner/banner.service.ts, `BannerService`: the banners of the home page, cached as
-- one list.
pub mod Freshness
use mathlib.Core.Option
use talkertive_chat_app.Base.{ℕ, String, Bool, true, Option, none, some, List, is_none, ascending}
use talkertive_chat_app.Prisma.{whole}
use talkertive_chat_app.Schema.{Banner}
use talkertive_chat_app.World.{
  ok, World, Clients, Fresh, Cached, banner_list, Action, pure, gets, modify, ◌>>=◌, ◌>>◌, throw_if,
  not_found, update_banner_row, delete_banner_row,
}
use talkertive_chat_app.Media.{delete_if_exists}

abbrev pub banner_all_key : String
banner_all_key = "banner:all"

abbrev pub banner_ttl_ms : ℕ
banner_ttl_ms = 300_000

-- `data: dto`, where an absent link changes nothing.
abbrev pub set_link : Option String → Banner → Banner
set_link none b = b
set_link (some l) b = record b { link_url = l }

module _ (p : Clients) where
  abbrev pub all_banners : World → List Banner
  all_banners w = p.banner.find_page (whole (ascending (λ b. b.created_at))) (λ b. true) w.banners

  unfoldable pub find_all : ℕ → Action Cached
  find_all now w = elim (p.cache.get now banner_all_key w.cache) [
    | some cached ↦ (ok cached, w)
    | none ↦
        let result = banner_list (all_banners w) in
        (
          ok result,
          record w { cache = p.cache.set now banner_all_key result banner_ttl_ms w.cache },
        )
  ]

  abbrev pub forget : Action (Unit {0})
  forget = modify (λ w. record w { cache = p.cache.del banner_all_key w.cache })

  unfoldable pub update : String → Option String → Action Banner
  unfolding update_banner_row
  update id link = do
    banner ← gets (λ w. p.banner.find_unique id w.banners)
    throw_if (is_none banner) (not_found "배너를 찾을 수 없습니다.")
    updated ← update_banner_row p id (set_link link)
    forget
    pure updated

  unfoldable pub delete : String → Action Banner
  unfolding delete_if_exists delete_banner_row
  delete id = do
    banner ← gets (λ w. p.banner.find_unique id w.banners)
    throw_if (is_none banner) (not_found "배너를 찾을 수 없습니다.")
    delete_if_exists p (Option.map (λ b. b.image_url) banner)
    deleted ← delete_banner_row p id
    forget
    pure deleted
