-- ===== src/ChatPanel/Happenings.antt =====
-- frontend/components/ChatPanel.tsx: all that can happen to a panel, in any order.
use talkertive_chat_app.Base.{ℕ, String, Bool, true, List, [], ◌∷◌, leb, string_eq}
use talkertive_chat_app.Chat.{FullMessage}
use talkertive_chat_app.Chat.Gateway.{ServerEvent}
use talkertive_chat_app.ChatPanel.{
  Panel, on_connect, on_disconnect, on_room_joined, on_event, handle_input_change,
  on_typing_debounce, send_message, advance, start_edit, cancel_edit, submit_edit, delete_message,
}

-- What can happen to a panel: an event of its socket, a timer that fires, an action of the user.
pub data Happening : Type 0 where
  connected disconnected : Happening
  room_joined : List FullMessage → Happening
  heard : ℕ → ServerEvent → Happening
  typed : ℕ → String → Happening
  debounced sent_input : Happening
  timers : ℕ → Happening
  edit_started : FullMessage → Happening
  edit_cancelled edit_submitted : Happening
  deleted : String → Happening

-- Whether a happening comes by a time.
abbrev pub by_time : ℕ → Happening → Bool
by_time t (heard now e) = leb now t
by_time t (typed now text) = leb now t
by_time t (timers now) = leb now t
by_time t h = true

module _ (room_id : String) where
  unfoldable pub happen : Happening → Panel → Panel
  unfolding on_connect on_disconnect on_room_joined on_event handle_input_change on_typing_debounce
      send_message advance start_edit cancel_edit submit_edit delete_message
  happen connected p = on_connect room_id p
  happen disconnected p = on_disconnect room_id p
  happen (room_joined l) p = on_room_joined room_id l p
  happen (heard now e) p = on_event room_id now e p
  happen (typed now text) p = handle_input_change room_id now text p
  happen debounced p = on_typing_debounce room_id p
  happen sent_input p = send_message room_id p
  happen (timers now) p = advance now p
  happen (edit_started m) p = start_edit m p
  happen edit_cancelled p = cancel_edit p
  happen edit_submitted p = submit_edit p
  happen (deleted id) p = delete_message id p

  -- The happenings in their order.
  unfoldable pub run : List Happening → Panel → Panel
  unfolding happen
  run [] p = p
  run (x ∷ xs) p = run xs (happen x p)
