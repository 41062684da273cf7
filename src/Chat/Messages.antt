-- ===== src/Chat/Messages.antt =====
-- Who may send, edit and delete, and what becomes of a message.
use mathlib.Core.Option
use talkertive_chat_app.Base.{
  String, false, not, ◌&&◌, ◌||◌, ◌≡◌, ◌==◌, string_eq, pair_eq, if◌then◌else◌, arith, id_iff, some,
  is_some, Option-cases, inl, inr, [],
}
use talkertive_chat_app.World.{World, Clients, Fresh, is_ok, ok}
use talkertive_chat_app.RoomMembers.{holds_owner}
use talkertive_chat_app.Schema.{Message}
use talkertive_chat_app.Chat.{
  edit_message, delete_message, FullMessage, find_message, is_deleted, is_sent_by, member_at, edit,
  soft_delete,
}

module _ (p : Clients) where
  -- An edit succeeds exactly for the sender of a message that is there and not deleted.
  edit_message_iff :
      (user_id message_id content : String) (w : World)
      → is_ok (edit_message p user_id message_id content w).0 ≡ (
          not (is_deleted (find_message p message_id w))
          && is_sent_by user_id (find_message p message_id w))
  unfolding edit_message
  edit_message_iff user_id message_id content w = ground arith

  -- A deletion succeeds exactly where the message is there and not deleted, and the user is its
  -- sender or has a row as an owner in its room.
  delete_message_iff :
      (e : Fresh) (user_id message_id : String) (w : World)
      → is_ok (delete_message p e user_id message_id w).0 ≡ (
          not (is_deleted (find_message p message_id w))
          && (is_sent_by user_id (find_message p message_id w)
              || holds_owner (member_at p user_id (find_message p message_id w) w)))
  unfolding delete_message
  delete_message_iff e user_id message_id w = ground arith

  -- An edit that succeeds gives its message the new text and the mark, and no edit changes any
  -- other message; one that fails changes no message at all.
  pub edit_message_writes :
      (user_id message_id content j : String) (w : World)
      → find_message p j (edit_message p user_id message_id content w).1 ≡ (
          if is_ok (edit_message p user_id message_id content w).0 && message_id == j
          then Option.map (edit content) (find_message p j w)
          else find_message p j w)
  unfolding edit_message
  edit_message_writes user_id message_id content j w =
      elim (Option-cases (find_message p message_id w)) [
        | inl missing ↦ ground arith
        | inr (m, q) ↦ ground (
          arith,
          id_iff message_id j,
          p.message.find-update message_id (edit content) w.messages j m q (p.message.find-key q),
        )
      ]

  pub delete_message_writes :
      (e : Fresh) (user_id message_id j : String) (w : World)
      → find_message p j (delete_message p e user_id message_id w).1 ≡ (
          if is_ok (delete_message p e user_id message_id w).0 && message_id == j
          then Option.map (soft_delete e.now) (find_message p j w)
          else find_message p j w)
  unfolding delete_message
  delete_message_writes e user_id message_id j w =
      elim (Option-cases (find_message p message_id w)) [
        | inl missing ↦ ground arith
        | inr (m, q) ↦ ground (
          arith,
          id_iff message_id j,
          p.message.find-update message_id (soft_delete e.now) w.messages j m q
              (p.message.find-key q),
        )
      ]

  -- An edit succeeds exactly for the sender of a message that is there and not deleted, a deletion
  -- exactly where the message is there and not deleted and the user is its sender or has a row as an
  -- owner in its room. An edit gives the message the new text and the mark, a deletion the time; no
  -- other message changes, and where the request fails no message changes at all.
  pub message_changes_lem :
      (e : Fresh) (user_id message_id content j : String) (w : World)
      → let (edited, w1) = edit_message p user_id message_id content w in
        let (deleted, w2) = delete_message p e user_id message_id w in
        let m = find_message p message_id w in
        (is_ok edited ≡ (not (is_deleted m) && is_sent_by user_id m))
        × (is_ok deleted ≡ (
            not (is_deleted m) && (is_sent_by user_id m || holds_owner (member_at p user_id m w))))
        × (find_message p j w1 ≡ (
            if is_ok edited && message_id == j
            then Option.map (edit content) (find_message p j w)
            else find_message p j w))
        × (find_message p j w2 ≡ (
            if is_ok deleted && message_id == j
            then Option.map (soft_delete e.now) (find_message p j w)
            else find_message p j w))
  message_changes_lem e user_id message_id content j w = (
    edit_message_iff user_id message_id content w,
    delete_message_iff e user_id message_id w,
    edit_message_writes user_id message_id content j w,
    delete_message_writes e user_id message_id j w,
  )

  -- What an edit and a deletion answer with.
  pub edit_message-message :
      (user_id message_id content : String) (w : World) (x : FullMessage)
      → (edit_message p user_id message_id content w).0 ≡ ok x
      → (m : Message) × (find_message p message_id w ≡ some m)
        × (is_some m.deleted_at ≡ false)
        × (x.message ≡ edit content m)
        × (x.attachments ≡ [])
  unfolding edit_message
  edit_message-message user_id message_id content w x h =
      elim (Option-cases (find_message p message_id w)) [
        | inl missing ↦ absurd (ground arith)
        | inr (m, q) ↦ (m, q, ground arith, ground arith, ground arith)
      ]

  pub delete_message-message :
      (e : Fresh) (user_id message_id : String) (w : World) (x : Message)
      → (delete_message p e user_id message_id w).0 ≡ ok x
      → (m : Message) × (find_message p message_id w ≡ some m) × (x ≡ soft_delete e.now m)
  unfolding delete_message
  delete_message-message e user_id message_id w x h =
      elim (Option-cases (find_message p message_id w)) [
        | inl missing ↦ absurd (ground arith)
        | inr (m, q) ↦ (m, q, ground arith)
      ]
