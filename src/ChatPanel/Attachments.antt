-- ===== src/ChatPanel/Attachments.antt =====
-- What an edit does to the attachments that the panel shows.
use talkertive_chat_app.Base.{
  ℕ, String, true, ◌≡◌, sym, ap, subst, ◌∙◌, some, [], map, In, In-map, ◌==◌, string_eq, inl, inr,
  arith, id_iff,
}
use talkertive_chat_app.Schema.{Message}
use talkertive_chat_app.World.{World, Clients, is_ok}
use talkertive_chat_app.World.Keeps.{Keeps}
use talkertive_chat_app.Chat.{FullMessage, edit_message, find_message, attachments_of}
use talkertive_chat_app.Chat.Messages.{edit_message-message}
use talkertive_chat_app.Chat.Gateway.{
  Server, emit, room_channel, message_edited, handle_edit_message,
}
use talkertive_chat_app.ChatPanel.{Panel, hear_all, replace_message}
use talkertive_chat_app.ChatPanel.Channels.{hear-emit}
use talkertive_chat_app.ChatPanel.Effects.{silent, edit-effect}
use talkertive_chat_app.ChatPanel.Rewrites.{hear_all-one, edited-messages}

module _ (p : Clients) (room_id : String) where
  edit_message-attachments : (u id t : String) → Keeps (λ w. w.attachments) (edit_message p u id t)
  unfolding edit_message
  edit_message-attachments u id t w = ground arith

  replaced-attachments :
      (x y : FullMessage)
      → x.attachments ≡ []
      → (replace_message x y).message.id ≡ x.message.id
      → (replace_message x y).attachments ≡ []
  replaced-attachments x y bare same = ground (arith, id_iff y.message.id x.message.id)

  -- Where the edit of a message of the panel's room succeeds, the panel shows the message without
  -- any attachment once it has heard of the edit, although the attachments stay stored.
  pub edited_message_lem :
      (now : ℕ) (own u id t : String) (w : World) (l : Panel) (m : Message)
      → find_message p id w ≡ some m
      → m.room_id ≡ room_id
      → is_ok (edit_message p u id t w).0 ≡ true
      → let s = (handle_edit_message p u id t (silent w)).1 in
        let l' = hear_all room_id now own s.calls l in
        (attachments_of p s.world m ≡ attachments_of p w m)
        × ((y : FullMessage) → In y l'.messages → y.message.id ≡ id → y.attachments ≡ [])
  edited_message_lem now own u id t w l m stored here done =
      elim (edit-effect p u id t (silent w)) [
        | inl (failed, same) ↦ absurd (ground arith)
        | inr (x, answered, said) ↦
            let (n, found, alive, made, bare) = edit_message-message p u id t w x answered in
            let same : n ≡ m = ground arith in
            let room : x.message.room_id ≡ room_id =
              ap (λ k. k.room_id) made ∙ ap (λ (k : Message). k.room_id) same ∙ here in
            let key : x.message.id ≡ id = ap (λ k. k.id) made ∙ p.message.find-key found in
            let heard : (hear_all room_id now own (handle_edit_message p u id t (silent w)).1.calls
                  l).messages
                ≡ map (replace_message x) l.messages =
              ap (λ (s : Server). (hear_all room_id now own s.calls l).messages) said
              ∙ ap (λ (k : Panel). k.messages)
                  (hear_all-one p room_id now own
                      (emit (room_channel x.message.room_id) (message_edited x)) l
                    ∙ hear-emit room_id now own x.message.room_id (message_edited x) l)
              ∙ ground (
                arith,
                id_iff x.message.room_id room_id,
                edited-messages p room_id now own x l,
              ) in
            (
              ap (λ (s : Server). attachments_of p s.world m) said
                  ∙ ap (λ k. p.attachment.find_many (λ a. a.message_id == m.id) k)
                      (edit_message-attachments u id t w),
              λ y i at.
                  let (z, j, e) =
                    In-map (replace_message x) y l.messages (subst (λ k. In y k) heard i) in
                  ap (λ (k : FullMessage). k.attachments) (sym e)
                  ∙ replaced-attachments x z bare
                      (ap (λ (k : FullMessage). k.message.id) e ∙ at ∙ sym key),
            )
      ]
