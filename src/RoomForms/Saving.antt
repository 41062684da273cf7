-- ===== src/RoomForms/Saving.antt =====
-- What the editor of a group room leaves in the room's row.
use mathlib.Core.Option
use talkertive_chat_app.Base.{
  ℕ, String, Bool, ◌&&◌, is_some, true, false, ◌≡◌, refl, ap, ◌∙◌, Option, none, some, arith,
  id_iff, ◌==◌, string_eq, if◌then◌else◌, inl, inr, Option-cases, Bool-cases,
}
use talkertive_chat_app.Schema.{Room, RoomCategory}
use talkertive_chat_app.World.{World, Clients, is_ok, fits_int}
use talkertive_chat_app.World.Keeps.{Result-cases}
use talkertive_chat_app.RoomMembers.{find_member, holds_owner}
use talkertive_chat_app.Rooms.{without_null, update_group_room, apply_update, UpdateGroupRoomDto}
use talkertive_chat_app.Rooms.Keys.{decimal}
use talkertive_chat_app.RoomForms.{
  Platform, RoomForm, RoomEditor, alerted, pushed, date_of, update_body_at, limit_of, or_empty,
  handle_save, room_page, initial_editor, limit_text, date_text, is_valid_limit,
}

-- A field that is empty in the form keeps what the row holds.
abbrev kept : String → Option String → Option String
kept s old = if s == "" then old else some s

abbrev kept_category : Option RoomCategory → Option RoomCategory → Option RoomCategory
kept_category none old = old
kept_category (some c) old = some c

abbrev pub saved : Platform → RoomForm → Room → Room
saved platform f r = record r {
  name = kept f.name r.name;
  description = kept f.description r.description;
  short_description = kept f.short_description r.short_description;
  member_limit = if f.member_limit == "" then r.member_limit else platform.parse_int f.member_limit;
  category = kept_category f.category r.category;
  address = kept f.address r.address;
  date = if f.date == "" then r.date else platform.local_time f.date;
}

module _ (p : Clients) (platform : Platform) where
  saved-eq :
      (f : RoomForm) (t : Option ℕ) (r : Room)
      → date_of platform f.date ≡ some t
      → apply_update (update_body_at platform f t) r ≡ saved platform f r
  saved-eq f t r h = ground arith

  update_group_room-find :
      (u id : String) (d : UpdateGroupRoomDto) (w : World) (r : Room)
      → p.room.find_unique id w.rooms ≡ some r
      → let (res, w') = update_group_room p u id d w in
        (is_ok res ≡ (holds_owner (find_member p id u w) && fits_int (without_null d.member_limit)))
        × (is_ok res ≡ false → w'.rooms ≡ w.rooms)
        × (is_ok res ≡ true → p.room.find_unique id w'.rooms ≡ some (apply_update d r))
  unfolding update_group_room
  update_group_room-find u id d w r q = (
    ground arith,
    λ failed. ground arith,
    λ done. ground (
      arith,
      id_iff id id,
      p.room.find-update id (apply_update d) w.rooms id r q (p.room.find-key q),
    ),
  )

  abbrev pub can_save : String → String → RoomForm → World → Bool
  can_save u id f w =
      holds_owner (find_member p id u w)
      && is_valid_limit (without_null (limit_of platform f.member_limit))
      && fits_int (without_null (limit_of platform f.member_limit))
      && is_some (date_of platform f.date)

  -- A save of the editor succeeds exactly where the user has a row as an owner in the room, the
  -- limit is none, or at least two and a 32-bit integer, and the date can be read; the row then holds what the form holds,
  -- but for a field that the form leaves empty, which stays as it was, so that none can be emptied.
  -- In every other case the form shows an alert and no room changes.
  pub handle_save_lem :
      (u id : String) (ed : RoomEditor) (w : World) (r : Room)
      → p.room.find_unique id w.rooms ≡ some r
      → let (o, w') = handle_save p platform (some u) id ed w in
        (can_save u id ed.form w ≡ true
          → (o ≡ pushed (room_page p id))
            × (p.room.find_unique id w'.rooms ≡ some (saved platform ed.form r)))
        × (can_save u id ed.form w ≡ false → (o ≡ alerted) × (w'.rooms ≡ w.rooms))
  unfolding handle_save
  handle_save_lem u id ed w r q = elim (Option-cases (date_of platform ed.form.date)) [
    | inl bad ↦ (λ yes'. absurd (ground arith), λ no'. (ground arith, ground arith))
    | inr (t, good) ↦
        let d = update_body_at platform ed.form t in
        let (went, failed, done) = update_group_room-find u id d w r q in
        elim (Bool-cases (is_valid_limit (without_null d.member_limit))) [
          | inl valid ↦ elim (Result-cases (update_group_room p u id d w).0) [
            | inl (x, yes') ↦ (
              λ h.
                  let stored = done (ground arith) ∙ ap some (saved-eq ed.form t r good) in
                  (ground arith, ground (arith, stored)),
              λ h. absurd (ground arith),
            )
            | inr (x, no') ↦ (λ h. absurd (ground arith), λ h. (ground arith, ground arith))
          ]
          | inr invalid ↦ (λ h. absurd (ground arith), λ h. (ground arith, ground arith))
        ]
  ]

  kept-or_empty : (x : Option String) → kept (or_empty x) x ≡ x
  kept-or_empty none = refl
  kept-or_empty (some s) = ground arith

  -- `parseInt` reads this number back from its decimal, which is no empty text.
  abbrev pub ReadsLimit : Option ℕ → Type 0
  ReadsLimit none = Unit
  ReadsLimit (some n) = (platform.parse_int (decimal n) ≡ some n) × (platform.parse_int "" ≡ none)

  -- The zone of the client gives the UTC text of this time, which is no empty text, another time.
  abbrev pub ReadsDate : (ℕ → ℕ) → Option ℕ → Type 0
  ReadsDate reading none = Unit
  ReadsDate reading (some t) =
      (platform.local_time (platform.utc_minute t) ≡ some (reading t))
      × (platform.local_time "" ≡ none)

  nonempty :
      {A : Type 0} (f : String → Option A) (s : String) (a : A)
      → f s ≡ some a
      → f "" ≡ none
      → (s == "") ≡ false
  nonempty f s a h k = ground (arith, id_iff s "", ap f, h, k)

  limit-initial :
      (x : Option ℕ)
      → ReadsLimit x
      → ((if limit_text x == "" then x else platform.parse_int (limit_text x)) ≡ x)
        × (without_null (limit_of platform (limit_text x)) ≡ x)
  limit-initial none h = (refl, refl)
  limit-initial (some n) (h, k) =
      let full = nonempty platform.parse_int (decimal n) n h k in (ground arith, ground arith)

  date-initial :
      (reading : ℕ → ℕ) (x : Option ℕ)
      → ReadsDate reading x
      → ((if date_text platform x == "" then x else platform.local_time (date_text platform x))
          ≡ Option.map reading x)
        × (is_some (date_of platform (date_text platform x)) ≡ true)
  date-initial reading none h = (refl, refl)
  date-initial reading (some t) (h, k) =
      let full = nonempty platform.local_time (platform.utc_minute t) (reading t) h k in
      (ground arith, ground arith)

  category-initial : (x : Option RoomCategory) → kept_category x x ≡ x
  category-initial none = refl
  category-initial (some c) = refl

  module _ (reading : ℕ → ℕ) (r : Room) (limit_read : ReadsLimit r.member_limit)
      (date_read : ReadsDate reading r.date) where
    saved-initial :
        saved platform (initial_editor platform r).form r
        ≡ record r { date = Option.map reading r.date }
    unfolding initial_editor
    saved-initial = λ i. record r {
      name = kept-or_empty r.name i;
      description = kept-or_empty r.description i;
      short_description = kept-or_empty r.short_description i;
      member_limit = (limit-initial r.member_limit limit_read).0 i;
      category = category-initial r.category i;
      address = kept-or_empty r.address i;
      date = (date-initial reading r.date date_read).0 i;
    }

    able :
        (u : String) (w : World)
        → holds_owner (find_member p r.id u w) ≡ true
        → is_valid_limit r.member_limit ≡ true
        → fits_int r.member_limit ≡ true
        → can_save u r.id (initial_editor platform r).form w ≡ true
    unfolding initial_editor
    able u w own valid fit =
        ground
          (arith, limit-initial r.member_limit limit_read, date-initial reading r.date date_read)

    -- Where the platform reads the decimal of the limit back, and the zone of the client gives the
    -- UTC text of the date the time `reading`: an owner who opens the editor of a room, whose limit
    -- is none, or at least two and a 32-bit integer, and saves without a change moves the date of the
    -- room to its `reading`, and changes nothing else in the row.
    pub handle_save-initial :
        (u : String) (w : World)
        → p.room.find_unique r.id w.rooms ≡ some r
        → holds_owner (find_member p r.id u w) ≡ true
        → is_valid_limit r.member_limit ≡ true
        → fits_int r.member_limit ≡ true
        → let (o, w') = handle_save p platform (some u) r.id (initial_editor platform r) w in
          (o ≡ pushed (room_page p r.id))
          × (p.room.find_unique r.id w'.rooms
              ≡ some (record r { date = Option.map reading r.date }))
    handle_save-initial u w q own valid fit =
        let (went, stored) =
          (handle_save_lem u r.id (initial_editor platform r) w r q).0 (able u w own valid fit) in
        (went, stored ∙ ap some saved-initial)
