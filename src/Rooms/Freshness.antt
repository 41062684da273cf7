-- ===== src/Rooms/Freshness.antt =====
-- What a reader of a group room sees after a change, and for how long an old copy is served.
use talkertive_chat_app.Base.{
  ℕ, ◌+◌, ◌<◌, String, true, ◌≡◌, none, some, arith, id_iff, string_eq, ◌⊎◌, inl, inr, Option-cases,
  pair_eq,
}
use talkertive_chat_app.Schema.{Room}
use talkertive_chat_app.World.{World, Clients, Cached, room_detail, ok, is_ok}
use talkertive_chat_app.Rooms.{update_group_room, UpdateGroupRoomDto, apply_update}
use talkertive_chat_app.Rooms.Kinds.{is_group}
use talkertive_chat_app.Rooms.Keys.{room_detail_key}
use talkertive_chat_app.Rooms.Queries.{find_one_group_room, group_detail, room_detail_ttl_ms}

module _ (p : Clients) where
  -- Where an update of a group room that is in the table succeeds, the next reader of the room, at
  -- any time, is given the updated row and the owners as they then are: no copy from before is
  -- left in the cache.
  pub update_group_room-find_one :
      (now : ℕ) (user_id room_id : String) (d : UpdateGroupRoomDto) (w : World) (r : Room)
      → p.room.find_unique room_id w.rooms ≡ some r
      → is_group r.type ≡ true
      → is_ok (update_group_room p user_id room_id d w).0 ≡ true
      → let w' = (update_group_room p user_id room_id d w).1 in
        (find_one_group_room p now room_id w').0
        ≡ ok (room_detail (group_detail p w' (apply_update d r)))
  unfolding update_group_room find_one_group_room
  update_group_room-find_one now user_id room_id d w r q g done = ground (
    arith,
    id_iff room_id room_id,
    p.room.find-key q,
    p.room.find-update room_id (apply_update d) w.rooms room_id r q (p.room.find-key q),
    p.cache.get-del_self now (room_detail_key room_id) w.cache,
  )

  -- A reader who finds no copy of a group room in the cache leaves one. Whoever reads the room
  -- later, when the rows may have changed but the cache has not, is given that copy, and then
  -- less than two minutes have passed, or what the rows then hold.
  find_one_group_room_stale :
      (now later : ℕ) (room_id : String) (w v : World) (r : Room) (c : Cached)
      → p.cache.get now (room_detail_key room_id) w.cache ≡ none
      → p.room.find_unique room_id w.rooms ≡ some r
      → is_group r.type ≡ true
      → v.cache ≡ (find_one_group_room p now room_id w).1.cache
      → (find_one_group_room p later room_id v).0 ≡ ok c
      → ((c ≡ room_detail (group_detail p w r)) × (later < now + 120_000))
        ⊎ (r' : Room) × (p.room.find_unique room_id v.rooms ≡ some r')
          × (c ≡ room_detail (group_detail p v r'))
  unfolding find_one_group_room
  find_one_group_room_stale now later room_id w v r c miss q g same read =
      elim (Option-cases (p.cache.get later (room_detail_key room_id) v.cache)) [
        | inl gone ↦ inr (elim (Option-cases (p.room.find_unique room_id v.rooms)) [
          | inl missing ↦ ground arith
          | inr (r', q') ↦ (r', q', ground arith)
        ])
        | inr (x, hit) ↦
            let old = room_detail (group_detail p w r) in
            let stored : v.cache
                ≡ p.cache.set now (room_detail_key room_id) old room_detail_ttl_ms w.cache =
              ground arith in
            inl (
              ground (
                arith,
                stored,
                p.cache.get-set_self later now (room_detail_key room_id) old x room_detail_ttl_ms
                    w.cache,
              ))
      ]
