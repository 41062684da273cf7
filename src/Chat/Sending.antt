-- ===== src/Chat/Sending.antt =====
-- What `ChatService.sendMessage` stores, and for whom.
use talkertive_chat_app.Base.{
  ℕ, ◌+◌, String, true, false, ◌≡◌, refl, none, some, List, [], ◌∷◌, arith, ◌==◌, string_eq,
  if◌then◌else◌, inl, inr, ◌⊎◌, ◌∙◌, ap,
}
use talkertive_chat_app.Schema.{Message, MessageAttachment}
use talkertive_chat_app.World.{
  World, Clients, Fresh, ok, is_ok, create_message, create_attachment, transaction, pure, ◌>>=◌,
  ◌>>◌,
}
use talkertive_chat_app.World.Keeps.{Keeps, bind-Keeps, Result-cases, nested-transaction}
use talkertive_chat_app.RoomMembers.Outcomes.{takes_part}
use talkertive_chat_app.Chat.{
  SendMessageDto, AttachmentDto, send_message, store_message, create_attachments, given,
  new_message, new_attachment, find_message, FullMessage,
}

module _ (p : Clients) where
  create_attachment-Keeps :
      (a : MessageAttachment) → Keeps (λ w. w.messages) (create_attachment p a)
  unfolding create_attachment
  create_attachment-Keeps a w = ground arith

  -- What no attachment changes, all together leave alone.
  pub create_attachments-Keeps :
      {B : Type 0} (g : World → B)
      → ((a : MessageAttachment) → Keeps g (create_attachment p a))
      → (e : Fresh) (id : String) (n : ℕ) (l : List AttachmentDto)
      → Keeps g (create_attachments p e id n l)
  unfolding create_attachments
  create_attachments-Keeps g one e id n [] = λ w. refl
  create_attachments-Keeps g one e id n (a ∷ rest) =
      bind-Keeps g (create_attachment p (new_attachment e id n a))
        (λ _. create_attachments p e id (n + 1) rest) (one (new_attachment e id n a))
        (λ _. create_attachments-Keeps g one e id (n + 1) rest)

  create_message_writes :
      (m : Message) (w : World)
      → (is_ok (create_message p m w).0 ≡ false)
        ⊎ ((create_message p m w).0 ≡ ok m)
          × (p.message.admits m w.messages ≡ true)
          × ((create_message p m w).1.messages ≡ p.message.create m w.messages)
  unfolding create_message
  create_message_writes m w = ground arith

  store_message_unfold :
      (e : Fresh) (user_id : String) (d : SendMessageDto) (w : World)
      → store_message p e user_id d w
        ≡ transaction
            (create_message p (new_message e user_id d) >>= λ m.
              create_attachments p e m.id 0 (given d.attachments) >> pure m)
            w
  unfolding store_message
  store_message_unfold e user_id d w = refl

  -- A message is stored with all its attachments or not at all.
  pub store_message_writes :
      (e : Fresh) (user_id : String) (d : SendMessageDto) (w : World)
      → let m = new_message e user_id d in
        let (res, w') = store_message p e user_id d w in
        ((is_ok res ≡ false) × (w' ≡ w))
        ⊎ (res ≡ ok m)
          × (p.message.admits m w.messages ≡ true)
          × (w'.messages ≡ p.message.create m w.messages)
  store_message_writes e user_id d w =
      let m = new_message e user_id d in
      let nested = λ (m : Message). create_attachments p e m.id 0 (given d.attachments) in
      rw (store_message_unfold e user_id d w)
        (elim (nested-transaction (create_message p m) nested w) [
          | inl failed ↦ inl failed
          | inr (a, done, res, last) ↦ elim (create_message_writes m w) [
            | inl refused ↦ absurd (ground arith)
            | inr (stored, admitted, written) ↦
                let kept =
                  create_attachments-Keeps (λ v. v.messages) create_attachment-Keeps e a.id 0
                    (given d.attachments) (create_message p m w).1 in
                let same : a ≡ m = ground arith in
                inr (res ∙ ap ok same, admitted, ap (λ v. v.messages) last ∙ kept ∙ written)
          ]
        ])

  -- Sending fails for one who does not take part in the room; and wherever it fails nothing is
  -- stored, not even the message whose attachments could not be. Where it succeeds, the new
  -- message's identifier was free, the message is stored under it as it was sent, in the name of
  -- the sender, and every other message stays as it is.
  pub send_message_lem :
      (e : Fresh) (user_id j : String) (d : SendMessageDto) (w : World)
      → let (res, w') = send_message p e user_id d w in
        (takes_part p d.room_id user_id w ≡ false → is_ok res ≡ false)
        × (is_ok res ≡ false → w' ≡ w)
        × (is_ok res ≡ true
            → (find_message p e.id w ≡ none)
              × (find_message p j w'
                  ≡ (if e.id == j then some (new_message e user_id d) else find_message p j w)))
  unfolding send_message
  send_message_lem e user_id j d w =
      let m = new_message e user_id d in
      elim (store_message_writes e user_id d w) [
        | inl (failed, same) ↦ elim (Result-cases (store_message p e user_id d w).0) [
          | inl (x, done) ↦ absurd (ground arith)
          | inr (x, q) ↦ (ground arith, ground arith, ground arith)
        ]
        | inr (done, admitted, written) ↦ (
          ground arith,
          ground arith,
          λ ok.
              let free = p.message.find-admits m w.messages admitted in
              let read = p.message.find-create m w.messages j admitted in
              (ground (arith, free), ground (arith, read)),
        )
      ]

  -- What a sender is answered with is the message that is stored.
  pub send_message-message :
      (e : Fresh) (user_id : String) (d : SendMessageDto) (w : World) (x : FullMessage)
      → (send_message p e user_id d w).0 ≡ ok x
      → x.message ≡ new_message e user_id d
  unfolding send_message
  send_message-message e user_id d w x h = elim (store_message_writes e user_id d w) [
    | inl (failed, same) ↦ elim (Result-cases (store_message p e user_id d w).0) [
      | inl (y, done) ↦ absurd (ground arith)
      | inr (y, q) ↦ ground arith
    ]
    | inr (done, admitted, written) ↦ ground arith
  ]
