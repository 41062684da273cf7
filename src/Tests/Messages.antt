-- ===== src/Tests/Messages.antt =====
-- The theorems on messages, the gateway and schedules at concrete requests.
use talkertive_chat_app.Base.{
  ℕ, String, Bool, true, false, ◌≡◌, refl, none, some, arith, ◌==◌, string_eq, Option, [], ◌∷◌, In,
}
use talkertive_chat_app.Schema.{User}
use talkertive_chat_app.World.{is_ok}
use talkertive_chat_app.World.Memory.{memory}
use talkertive_chat_app.Chat.{
  SendMessageDto, send_message, store_message, create_attachments, edit_message, mark_as_read,
  find_message, new_message,
}
use talkertive_chat_app.Chat.Sending.{send_message_lem}
use talkertive_chat_app.Chat.Messages.{message_changes_lem}
use talkertive_chat_app.Chat.Reading.{mark_as_read_iff}
use talkertive_chat_app.Chat.Delivery.{handle_send_message-calls}
use talkertive_chat_app.Chat.Gateway.{Server, handle_send_message}
use talkertive_chat_app.Schedules.{UpdateScheduleDto, cancel, process_ai_schedule}
use talkertive_chat_app.Schedules.Isolation.{process_ai_schedule_isolated}
use talkertive_chat_app.Schedules.Matching.{
  find_matching_schedule, find_matching_schedule-IsNearest,
}
use talkertive_chat_app.Login.{Attempts}
use talkertive_chat_app.Login.Attempts.{passed, five_attempts_pass, passed}
use talkertive_chat_app.Tests.Samples.{chat, next, hello, meeting}

abbrev note : SendMessageDto
note = record { room_id = "study"; content = some "note"; attachments = none }

send_message_lem_example :
    find_message memory "new" (send_message memory next "bob" note chat).1
    ≡ some (new_message next "bob" note)
unfolding memory send_message store_message create_attachments
send_message_lem_example = ((send_message_lem memory next "bob" "new" note chat).2 refl).1

message_changes_lem_example :
    find_message memory "hello" (edit_message memory "bob" "hello" "bye" chat).1
    ≡ some (record hello { content = some "bye"; is_edited = true })
unfolding memory edit_message
message_changes_lem_example = (message_changes_lem memory next "bob" "hello" "bye" "hello" chat).2

mark_as_read_iff_example : is_ok (mark_as_read memory "bob" "study" "hello" chat).0 ≡ true
unfolding memory
mark_as_read_iff_example = (mark_as_read_iff memory "bob" "study" "hello" "study" "bob" chat).0

abbrev server : Server
server = record { world = chat; calls = [] }

handle_send_message-calls_example :
    (handle_send_message memory next "carol" note server).1.calls ≡ []
unfolding memory send_message
handle_send_message-calls_example =
    (handle_send_message-calls memory next "carol" note server).1 refl

abbrev later : UpdateScheduleDto
later = record { name = none; time = some 9_000 }

abbrev no_date : String → Option ℕ
no_date text = none

process_ai_schedule_isolated_example :
    (is_ok
        (process_ai_schedule memory no_date next
          (λ l. cancel "meeting" "")
          (λ w. w)
          "bob"
          "study"
          chat).0
      ≡ false)
    × ((process_ai_schedule memory no_date next
          (λ l. cancel "meeting" "")
          (λ w. w)
          "bob"
          "study"
          chat).1
        ≡ chat)
unfolding memory
process_ai_schedule_isolated_example =
    (process_ai_schedule_isolated memory no_date next (λ l. cancel "meeting" "") (λ w. w) "bob"
        "study" chat).0
      refl

find_matching_schedule-IsNearest_example : In meeting (meeting ∷ [])
unfolding find_matching_schedule
find_matching_schedule-IsNearest_example =
    (find_matching_schedule-IsNearest 6_000 "dinner" (meeting ∷ []) meeting refl).0

five_attempts_pass_example : passed "ip" (0 ∷ 1 ∷ 2 ∷ 3 ∷ 4 ∷ 5 ∷ 6 ∷ []) [] ≡ 5
five_attempts_pass_example =
    five_attempts_pass "ip" 0 (1 ∷ 2 ∷ 3 ∷ 4 ∷ 5 ∷ 6 ∷ []) [] refl
      (omega arith, (omega arith, (omega arith, (omega arith, (omega arith, (omega arith, tt))))))

abbrev full : Attempts
full = ("ip", record { count = 5; reset_at = 900_000 }) ∷ []

abbrev no_user : String → Option User
no_user email = none

abbrev same_password : String → String → Bool
same_password given stored = given == stored
