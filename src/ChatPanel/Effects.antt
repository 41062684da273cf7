-- ===== src/ChatPanel/Effects.antt =====
-- What the gateway says of an edit and of a deletion.
use talkertive_chat_app.Base.{String, false, ◌≡◌, [], ◌∷◌, string_eq, ◌⊎◌, inl, inr, arith}
use talkertive_chat_app.Schema.{Message}
use talkertive_chat_app.World.{World, Clients, Fresh, ok, is_ok}
use talkertive_chat_app.World.Keeps.{Result-cases}
use talkertive_chat_app.Chat.{FullMessage, edit_message, delete_message}
use talkertive_chat_app.Chat.Gateway.{
  Server, emit, room_channel, message_edited, message_deleted, handle_edit_message,
  handle_delete_message,
}

-- A server before it has said anything.
abbrev pub silent : World → Server
silent w = record { world = w; calls = [] }

module _ (p : Clients) where
  pub edit-effect :
      (u id c : String) (s : Server)
      → ((is_ok (edit_message p u id c s.world).0 ≡ false)
          × ((handle_edit_message p u id c s).1
              ≡ record { world = (edit_message p u id c s.world).1; calls = s.calls }))
        ⊎ ((x : FullMessage) × ((edit_message p u id c s.world).0 ≡ ok x)
            × ((handle_edit_message p u id c s).1 ≡ record {
              world = (edit_message p u id c s.world).1;
              calls = emit (room_channel x.message.room_id) (message_edited x) ∷ s.calls;
            }))
  unfolding handle_edit_message
  edit-effect u id c s = elim (Result-cases (edit_message p u id c s.world).0) [
    | inr (x, failed) ↦ inl (ground arith, ground arith)
    | inl (x, done) ↦ inr (x, done, ground arith)
  ]

  pub delete-effect :
      (e : Fresh) (u id : String) (s : Server)
      → ((is_ok (delete_message p e u id s.world).0 ≡ false)
          × ((handle_delete_message p e u id s).1
              ≡ record { world = (delete_message p e u id s.world).1; calls = s.calls }))
        ⊎ ((x : Message) × ((delete_message p e u id s.world).0 ≡ ok x)
            × ((handle_delete_message p e u id s).1 ≡ record {
              world = (delete_message p e u id s.world).1;
              calls = emit (room_channel x.room_id) (message_deleted x.id x.room_id) ∷ s.calls;
            }))
  unfolding handle_delete_message
  delete-effect e u id s = elim (Result-cases (delete_message p e u id s.world).0) [
    | inr (x, failed) ↦ inl (ground arith, ground arith)
    | inl (x, done) ↦ inr (x, done, ground arith)
  ]
