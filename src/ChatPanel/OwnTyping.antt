-- ===== src/ChatPanel/OwnTyping.antt =====
-- What the others are told of the user's own typing.
use mathlib.Core.List.{reverse}
use talkertive_chat_app.Base.{
  ℕ, String, Bool, true, false, ◌≡◌, refl, sym, ap, ◌∙◌, Option, some, none, is_some, List, [], ◌∷◌,
  leb, string_eq, arith, if◌then◌else◌,
}
use talkertive_chat_app.Chat.{FullMessage}
use talkertive_chat_app.Chat.Gateway.{
  ServerEvent, ClientEvent, new_message, message_edited, message_deleted, message_read, user_typing,
  room_list_updated, typing, send, edit, delete, read, join_room, leave_room,
}
use talkertive_chat_app.ChatPanel.{Panel, on_event, on_typing_timeout, fire, last?, emitting_read}
use talkertive_chat_app.ChatPanel.Happenings.{
  Happening, connected, disconnected, room_joined, heard, typed, debounced, sent_input, timers,
  edit_started, edit_cancelled, edit_submitted, deleted, happen, run,
}

-- What the last `typing` event for the room said.
abbrev pub told_typing : List ClientEvent → Bool
told_typing [] = false
told_typing (typing r t ∷ es) = t
told_typing (send d ∷ es) = told_typing es
told_typing (edit id c ∷ es) = told_typing es
told_typing (delete id ∷ es) = told_typing es
told_typing (read r id ∷ es) = told_typing es
told_typing (join_room r ∷ es) = told_typing es
told_typing (leave_room r ∷ es) = told_typing es

-- The others have been told of the user's own typing as it is, and it has a timeout while it lasts.
pub record Told (p : Panel) : Type 0 where
  pub socket : p.has_socket ≡ true
  pub debouncing : p.is_typing ≡ is_some p.typing_debounce
  pub told : told_typing p.sent ≡ p.is_typing

module _ (room_id : String) where
  Told-same :
      (p p' : Panel)
      → p'.has_socket ≡ p.has_socket
      → p'.is_typing ≡ p.is_typing
      → p'.typing_debounce ≡ p.typing_debounce
      → told_typing p'.sent ≡ told_typing p.sent
      → Told p
      → Told p'
  Told-same p p' socket state debounce sent h = record {
    socket = socket ∙ h.socket;
    debouncing = state ∙ h.debouncing ∙ ap is_some (sym debounce);
    told = sent ∙ h.told ∙ sym state;
  }

  Told-fire : (now : ℕ) (ts : List (String × ℕ)) (p : Panel) → Told p → Told (fire now ts p)
  unfolding on_typing_timeout
  Told-fire now [] p h = h
  Told-fire now ((v, d) ∷ ts) p h =
      Told-fire now ts _ (elim (leb d now) as (λ b. Told (if b then on_typing_timeout v p else p)) [
        | true ↦ Told-same p _ refl refl refl refl h
        | false ↦ h
      ])

  Told-event : (now : ℕ) (e : ServerEvent) (p : Panel) → Told p → Told (on_event room_id now e p)
  unfolding on_event
  Told-event now (new_message m) p h =
      Told-same p _ (ground arith) (ground arith) (ground arith) (ground arith) h
  Told-event now (message_edited m) p h = Told-same p _ refl refl refl refl h
  Told-event now (message_deleted id r) p h = Told-same p _ refl refl refl refl h
  Told-event now (message_read u r id) p h = h
  Told-event now (room_list_updated l) p h = h
  Told-event now (user_typing v false) p h = Told-same p _ refl refl refl refl h
  Told-event now (user_typing v true) p h = Told-same p _ refl refl refl refl h

  Told-read : (m : Option FullMessage) (p : Panel) → Told p → Told (emitting_read room_id m p)
  Told-read none p h = h
  Told-read (some m) p h =
      Told-same p _ (ground arith) (ground arith) (ground arith) (ground arith) h

  happen-Told : (x : Happening) (p : Panel) → Told p → Told (happen room_id x p)
  unfolding happen
  happen-Told connected p h =
      Told-same p _ (ground arith) (ground arith) (ground arith) (ground arith) h
  happen-Told disconnected p h = Told-same p _ refl refl refl refl h
  happen-Told (room_joined l) p h =
      Told-read (last? (reverse l)) _ (Told-same p _ refl refl refl refl h)
  happen-Told (heard now e) p h = Told-event now e p h
  happen-Told (typed now text) p h = record {
    socket = ground arith;
    debouncing = ground arith;
    told = ground arith;
  }
  happen-Told debounced p h = record {
    socket = ground arith;
    debouncing = ground arith;
    told = ground arith;
  }
  happen-Told sent_input p h = record {
    socket = ground arith;
    debouncing = ground arith;
    told = ground arith;
  }
  happen-Told (timers now) p h = Told-fire now p.typing_timeouts p h
  happen-Told (edit_started m) p h = Told-same p _ refl refl refl refl h
  happen-Told edit_cancelled p h = Told-same p _ refl refl refl refl h
  happen-Told edit_submitted p h =
      Told-same p _ (ground arith) (ground arith) (ground arith) (ground arith) h
  happen-Told (deleted id) p h =
      Told-same p _ (ground arith) (ground arith) (ground arith) (ground arith) h

  -- Whatever happens to a panel with a socket, the last that the others were told of the user's
  -- typing is whether the panel takes the user to be typing, and while it does, a timeout runs.
  pub run-Told : (xs : List Happening) (p : Panel) → Told p → Told (run room_id xs p)
  unfolding run
  run-Told [] p h = h
  run-Told (x ∷ xs) p h = run-Told xs (happen room_id x p) (happen-Told x p h)
