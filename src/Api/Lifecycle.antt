-- ===== src/Api/Lifecycle.antt =====
-- Rooms over time: any sequence of the requests and events of ordinary users.
use talkertive_chat_app.Base.{ℕ, String, ◌≡◌, Option, none, some, List, inl, inr, ap, true}
use talkertive_chat_app.Schema.{RoomSchedule, Room, RoomMember, User}
use talkertive_chat_app.World.{World, Clients, Fresh, modify}
use talkertive_chat_app.World.Preserves.{Preserves}
use talkertive_chat_app.Chat.Gateway.{Server, Socket, ClientEvent, handle_event}
use talkertive_chat_app.Chat.Ownership.{handle_event-HasOwners}
use talkertive_chat_app.Rooms.Upkeep.{HasOwners, same-Preserves}
use talkertive_chat_app.Schedules.{Answer, process_ai_schedule}
use talkertive_chat_app.Schedules.Kept.{process_ai_schedule_writes}
use talkertive_chat_app.Api.{PublicRoute, MemberRoute, public, member, handle, is_declared}
use talkertive_chat_app.Api.Ownership.{handle_public-HasOwners, handle_member-HasOwners}

-- What the database has become: by nothing, by one more HTTP request with the subject of its token,
-- if one verifies, and a body that holds no undeclared field, or by one more event of a socket. The
-- administrator's requests are left out.
pub data Reach (p : Clients) (verify : String → Option String) : World → World → Type 0 where
  here : (w : World) → Reach p verify w w
  browsed :
      (e : Fresh) (subject : Option String) (r : PublicRoute) (v w : World)
      → Reach p verify v w
      → Reach p verify v (handle p e subject (public r) w).1
  requested :
      (e : Fresh) (subject : Option String) (r : MemberRoute) (v w : World)
      → is_declared r ≡ true
      → Reach p verify v w
      → Reach p verify v (handle p e subject (member r) w).1
  said :
      (e : Fresh) (c : Socket) (event : ClientEvent) (v : World) (s : Server)
      → Reach p verify v s.world
      → Reach p verify v (handle_event p verify e c event s).1.world
  -- The language model is asked, and other requests come meanwhile.
  planned :
      (parse : String → Option ℕ) (e : Fresh) (ask : List RoomSchedule → Answer) (f : World → World)
      (user_id room_id : String) (v w : World)
      → ((x : World) → Reach p verify x (f x))
      → Reach p verify v w
      → Reach p verify v (process_ai_schedule p parse e ask f user_id room_id w).1

abbrev of_people : List Room × List RoomMember × List User → List Room × List RoomMember
of_people t = (t.0, t.1)

module _ (p : Clients) (verify : String → Option String) where
  handle-HasOwners :
      (e : Fresh) (subject : Option String) (r : MemberRoute)
      → is_declared r ≡ true
      → Preserves (HasOwners p) (handle p e subject (member r))
  unfolding handle
  handle-HasOwners e none r declared w h = h
  handle-HasOwners e (some u) r declared w h = handle_member-HasOwners p e u r declared w h

  handle-public-HasOwners :
      (e : Fresh) (subject : Option String) (r : PublicRoute)
      → Preserves (HasOwners p) (handle p e subject (public r))
  unfolding handle
  handle-public-HasOwners e subject r w h = handle_public-HasOwners p e r w h

  -- Where every member row is of a room that is there and every group room has one owner, who
  -- takes part in it, this is so after any sequence of requests to the handlers behind no guard or
  -- behind the token's guard alone, of events of sockets and of schedules made by the language
  -- model, with other such requests while it thinks; with whatever tokens, and whether they succeed
  -- or not, where no body of a request for an account or a room holds more than the columns that
  -- are modelled, that is, no nested write.
  pub Reach-HasOwners : (v w : World) → Reach p verify v w → HasOwners p v → HasOwners p w
  Reach-HasOwners _ _ (here v) h = h
  Reach-HasOwners _ _ (browsed e subject r v w before) h =
      handle-public-HasOwners e subject r w (Reach-HasOwners v w before h)
  Reach-HasOwners _ _ (requested e subject r v w declared before) h =
      handle-HasOwners e subject r declared w (Reach-HasOwners v w before h)
  Reach-HasOwners _ _ (said e c event v s before) h =
      handle_event-HasOwners p verify e c event s (Reach-HasOwners v s.world before h)
  Reach-HasOwners _ _ (planned parse e ask f u r v w others before) h =
      same-Preserves p (process_ai_schedule p parse e ask f u r) (modify f) w
        (elim (process_ai_schedule_writes p parse e ask f u r w) [
          | inl same ↦ inl (ap of_people same)
          | inr same ↦ inr (ap of_people same)
        ])
        (λ x k. Reach-HasOwners x (f x) (others x) k) (Reach-HasOwners v w before h)
