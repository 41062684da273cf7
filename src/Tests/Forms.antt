-- ===== src/Tests/Forms.antt =====
-- The theorems on the forms for a room at a client nine hours ahead of UTC.
use talkertive_chat_app.Base.{
  ℕ, ◌-◌, ◌*◌, [], ◌∷◌, ◌≡◌, refl, none, some, ◌==◌, string_eq, if◌then◌else◌,
}
use talkertive_chat_app.Schema.{Room}
use talkertive_chat_app.World.{World}
use talkertive_chat_app.World.Memory.{memory}
use talkertive_chat_app.Media.{UploadedFile, accepts_image}
use talkertive_chat_app.Rooms.{create_group_room}
use talkertive_chat_app.Rooms.Keys.{decimal}
use talkertive_chat_app.RoomForms.{
  Platform, RoomCreator, RoomEditor, alerted, handle_save, handle_create, initial_editor,
  request_cover, create_body, create_body_at,
}
use talkertive_chat_app.RoomForms.Saving.{handle_save_lem, handle_save-initial}
use talkertive_chat_app.RoomForms.Creating.{handle_create-kept}
use talkertive_chat_app.Tests.Samples.{chat, next, study_room}

abbrev hour_ms : ℕ
hour_ms = 3_600_000

-- The texts that the tests read, and no other.
abbrev seoul : Platform
seoul = record {
  parse_int = λ s. if s == "3" then some 3 else none;
  local_time = λ s. if s == "1970-01-02T00:00" then some (15 * hour_ms) else none;
  utc_minute = λ t. "1970-01-02T00:00";
}

abbrev party : Room
party = record study_room { date = some (24 * hour_ms) }

abbrev planned : World
planned = record chat { rooms = party ∷ [] }

handle_save-initial_example :
    memory.room.find_unique "study"
      (handle_save memory seoul (some "alice") "study" (initial_editor seoul party) planned).1.rooms
    ≡ some (record party { date = some (15 * hour_ms) })
unfolding memory decimal
handle_save-initial_example =
    (handle_save-initial memory seoul (λ t. t - 9 * hour_ms) party (refl, refl) (refl, refl) "alice"
      planned refl refl refl refl).1

-- The editor with a text emptied.
abbrev emptied : RoomEditor
emptied = record {
  form = record {
    name = "Study";
    description = "";
    short_description = "";
    member_limit = "";
    category = none;
    address = "";
    date = "";
  };
  cover_image = none;
  profile_image = none;
}

handle_save_lem_example :
    memory.room.find_unique "study"
      (handle_save memory seoul (some "alice") "study" emptied planned).1.rooms
    ≡ some party
unfolding memory
handle_save_lem_example =
    ((handle_save_lem memory seoul "alice" "study" emptied planned party refl).0 refl).1

abbrev picture : UploadedFile
picture = record { originalname = "a.txt"; mimetype = "text/plain" }

abbrev creator : RoomCreator
creator = record { form = emptied.form; cover_file = some picture; profile_file = none }

handle_create-kept_example :
    (handle_create memory seoul next next next (some "bob") creator chat).0 ≡ alerted
unfolding memory create_body create_group_room request_cover accepts_image
handle_create-kept_example =
    (handle_create-kept memory seoul next next next "bob" creator chat
      (create_body_at seoul emptied.form none) picture refl refl refl refl refl).0
