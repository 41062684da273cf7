-- ===== src/ChatPanel/Uploads.antt =====
-- `uploadAndSendFile` of frontend/components/ChatPanel.tsx, with the handler of
-- backend/src/media/media.controller.ts that answers it. The flag of the upload is left out, and
-- the panel keeps its socket while it waits.
use talkertive_chat_app.Base.{
  ℕ, String, true, false, not, ◌&&◌, ◌≡◌, Option, none, some, [], ◌∷◌, arith, is_some,
  if◌then◌else◌, inl, inr,
}
use talkertive_chat_app.World.{
  World, Clients, Fresh, Action, ok, err, is_ok, bad_request, throw_if, ◌>>◌,
}
use talkertive_chat_app.World.Keeps.{Result-cases}
use talkertive_chat_app.Chat.Gateway.{ClientEvent, send}
use talkertive_chat_app.Media.{UploadedFile, accepts_attachment, upload_message_attachment}
use talkertive_chat_app.ChatPanel.{Panel, emitting}

module _ (p : Clients) (room_id : String) where
  -- `send-message` with the one attachment
  abbrev pub file_message : UploadedFile → ℕ → String → ClientEvent
  file_message f size url = send (record {
    room_id = room_id;
    content = none;
    attachments =
        some
          (record { url = url; name = f.originalname; size = size; mime_type = f.mimetype } ∷ []);
  })

  abbrev pub request_upload : Fresh → UploadedFile → Action String
  request_upload e f =
      throw_if (not (accepts_attachment f)) (bad_request "지원하지 않는 파일 형식입니다.")
      >> upload_message_attachment p e f room_id

  unfoldable pub upload_and_send_file :
      Fresh → Option String → UploadedFile → ℕ → Panel → World → Panel × World
  upload_and_send_file e none f size panel w = (panel, w)
  upload_and_send_file e (some u) f size panel w =
      if panel.has_socket
      then (let (r, w') = request_upload e f w in
          (elim r [ ok url ↦ emitting (file_message f size url) panel | err x ↦ panel ], w'))
      else (panel, w)

  -- The panel sends a message with a file exactly where it has a socket, its user is signed in, the
  -- type of the file is accepted and the storage takes it; the message then names the address at
  -- which the file is stored. In every other case the panel stays as it was.
  upload_and_send_file_lem :
      (e : Fresh) (subject : Option String) (f : UploadedFile) (size : ℕ) (panel : Panel)
      (w : World)
      → let taken = upload_message_attachment p e f room_id w in
        let (panel', w') = upload_and_send_file e subject f size panel w in
        (panel.has_socket && is_some subject && accepts_attachment f && is_ok taken.0 ≡ false
          → panel' ≡ panel)
        × ((url : String)
            → panel.has_socket && is_some subject && accepts_attachment f ≡ true
            → taken.0 ≡ ok url
            → (panel' ≡ record panel { sent = file_message f size url ∷ panel.sent })
              × (w' ≡ taken.1))
  unfolding upload_and_send_file
  upload_and_send_file_lem e none f size panel w =
      (λ h. ground arith, λ url h good. absurd (ground arith))
  upload_and_send_file_lem e (some u) f size panel w =
      elim (Result-cases (upload_message_attachment p e f room_id w).0) [
        | inl (url, good) ↦ (λ h. ground arith, λ url' h good'. (ground arith, ground arith))
        | inr (x, bad) ↦ (λ h. ground arith, λ url' h good'. absurd (ground arith))
      ]
