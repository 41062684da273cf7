-- ===== src/Lib.antt =====
-- A model of the chat application: the services of the NestJS backend, its chat gateway, and the
-- controllers before them, and the parts of the Next.js frontend that keep state, with what makes
-- them correct.
--
-- A request reaches a service method, which reads and writes the tables of the database by Prisma,
-- a cache and S3. A method is an `Action`, a function from the `World` to a result and the world
-- after it; an exception is a result, and what was written before it stays unless a transaction
-- rolls it back. The gateway turns events of a socket into calls of the chat service and into
-- calls of Socket.io, which are a list. The files:
--
-- - Base: names of the libraries, tests on numbers and texts, lists and sorting.
-- - Prisma: `prisma.<model>` as an interface `Delegate` with the documented behaviour of the client
--   as laws, and a delegate in memory that keeps them (Prisma/Reference).
-- - Schema: backend/prisma/schema.prisma.
-- - World: the state, the monad, the writes with their cascades and errors, the cache manager as an
--   interface `Cache`, and clients in memory for the tests (World/Memory).
-- - RoomMembers: backend/src/room-members/room-members.service.ts.
-- - Rooms: backend/src/rooms/rooms.service.ts, its queries and cache keys in child modules.
-- - Chat: backend/src/chat/chat.service.ts; Chat/Gateway: backend/src/chat/chat.gateway.ts and
--   backend/src/chat/ws-jwt.guard.ts. Chat/Audience: who stands in a channel over time, with the
--   rooms of Socket.io as an interface `Adapter`.
-- - Schedules: backend/src/schedules/schedules.service.ts.
-- - Banners, Users, Admin, Media: the services of those names, with
--   backend/src/auth/guards/roles.guard.ts in Users and the file filters of
--   backend/src/media/media.controller.ts in Media.
-- - Admin/Lists and Admin/Statistics: the lists and the counts by day of
--   backend/src/admin/admin.service.ts.
-- - Api: the controllers of backend/src, with their guards: rooms/rooms.controller.ts and those of
--   the same kind. Api/Lifecycle puts them, the gateway and the language model together. A body of
--   an update of an account may hold a role (Api/Escalation). A body with nested writes, which no
--   DTO declares but which Prisma carries out, is a request of its own with an action as what it
--   writes; what is shown of declared requests does not extend to it.
-- - Login: frontend/auth.ts. SignUp: frontend/app/actions/auth-actions.ts. MyRooms:
--   frontend/hooks/useMyRooms.ts and, in MyRooms/Counts, how its counts of unread messages go with
--   those of the backend (Chat/Unread).
-- - ChatPanel: frontend/components/ChatPanel.tsx. Its child modules put the panel and the gateway
--   together (Rewrites, Order, Attachments, Traffic, Joining), follow what happens to it over time
--   (Happenings, Typing, OwnTyping) and model the way to a direct chat (DirectChat) and uploads
--   (Uploads).
-- - Sidebar: frontend/components/ChatSidebar.tsx with frontend/store/chatSidebar.ts.
-- - Membership: frontend/components/InviteToGroupPanel.tsx,
--   frontend/components/TransferOwnerPanel.tsx and the actions on members of
--   frontend/components/ChatPanel.tsx, with the requests that they send.
-- - Calendar: frontend/components/ScheduleCalendar.tsx and, in Calendar/Room,
--   frontend/components/RoomScheduleCalendar.tsx, whose requests may overlap (Calendar/Room/Races).
-- - RoomForms: frontend/app/(main)/rooms/new/GroupRoomCreator.tsx and
--   frontend/app/(main)/rooms/[roomId]/edit/GroupRoomEditor.tsx with their actions.ts: the forms for
--   a group room and what they send to the controllers.
-- - Tests: each theorem at a concrete request.
--
-- A method keeps the name of the source in snake_case and its arguments in their order; before them
-- stand the clients `p` and, where it draws them, the identifiers and the time of `Fresh`. Prisma,
-- the cache manager, S3, slugify, the verification of tokens, bcrypt and the language model are
-- parameters, and so is what parseInt and Date read in the browser. Identifiers are texts and a
-- date is its time in milliseconds. No method loops but over a list that it is given, so that no
-- fuel is needed, with two exceptions: the digits of a number are read with as much fuel as the
-- number, which has fewer digits, and the loop that fills up the last week of a calendar has fuel
-- that is shown to be enough from six on. The requests of one step run alone: two requests are
-- interleaved only where the language model is waited for. The client's timers fire when their time
-- is over, and the panel hears of one event before the next is handled; the zone of the client is a
-- function from times to dates, that of the server a distance from UTC.
--
-- Not modelled: validation, throttling and wiring, which are those of the framework; metrics,
-- logging and health checks; the plain counts of the administrator's statistics; the pages and
-- components of the frontend that only draw and send requests; frontend/app/(main)/chat, whose
-- ChatRoom.tsx has the handlers of ChatPanel.tsx once more; generated clients.
pub mod Base
pub mod Prisma
pub mod Schema
pub mod World
pub mod RoomMembers
pub mod Media
pub mod Rooms
pub mod Chat
pub mod Schedules
pub mod Banners
pub mod Users
pub mod Admin
pub mod Api
pub mod Login
pub mod SignUp
pub mod MyRooms
pub mod ChatPanel
pub mod Calendar
pub mod RoomForms
pub mod Membership
pub mod Sidebar
mod Tests
