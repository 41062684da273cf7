-- ===== src/Rooms/Keys.antt =====
-- The cache keys of backend/src/rooms/rooms.service.ts.
use talkertive_chat_app.Base.{
  ℕ, zero, suc, ◌/◌, ◌%◌, ltb, String, Option, none, some, if◌then◌else◌,
}
use talkertive_chat_app.Schema.{
  RoomCategory, study, sports, food, travel, hobby, culture, tech, etc,
}
use talkertive_chat_app.Media.{◌+++◌}

abbrev pub digit : ℕ → String
digit zero = "0"
digit (suc zero) = "1"
digit (suc (suc zero)) = "2"
digit (suc (suc (suc zero))) = "3"
digit (suc (suc (suc (suc zero)))) = "4"
digit (suc (suc (suc (suc (suc zero))))) = "5"
digit (suc (suc (suc (suc (suc (suc zero)))))) = "6"
digit (suc (suc (suc (suc (suc (suc (suc zero))))))) = "7"
digit (suc (suc (suc (suc (suc (suc (suc (suc zero)))))))) = "8"
digit n = "9"

-- A number in decimal, as a template literal prints it; a number has no more digits than itself
-- plus one.
unfoldable pub decimal_from : ℕ → ℕ → String → String
decimal_from zero n acc = acc
decimal_from (suc fuel) n acc =
    let rest = decimal_from fuel (n / 10) (digit (n % 10) +++ acc) in
    if ltb n 10 then digit n +++ acc else rest

unfoldable pub decimal : ℕ → String
unfolding decimal_from
decimal n = decimal_from (suc n) n ""

abbrev pub category_text : RoomCategory → String
category_text study = "STUDY"
category_text sports = "SPORTS"
category_text food = "FOOD"
category_text travel = "TRAVEL"
category_text hobby = "HOBBY"
category_text culture = "CULTURE"
category_text tech = "TECH"
category_text etc = "ETC"

-- `undefined` becomes the empty text.
abbrev pub or_empty : {A : Type 0} → (A → String) → Option A → String
or_empty f none = ""
or_empty f (some a) = f a

-- `roomDetailKey`
unfoldable pub room_detail_key : String → String
room_detail_key room_id = "rooms:group:" +++ room_id

-- `roomListKey`
unfoldable pub room_list_key : Option ℕ → Option ℕ → Option String → Option RoomCategory → String
unfolding decimal
room_list_key skip count search category =
    "rooms:group:list:"
    +++ or_empty decimal skip
    +++ ":"
    +++ or_empty decimal count
    +++ ":"
    +++ or_empty (λ s. s) search
    +++ ":"
    +++ or_empty category_text category
