-- ===== src/Tests.antt =====
-- The theorems at concrete requests: a small chat with two users in one room.
pub mod Samples
mod Members
mod Rooms
mod Messages
mod Lists
mod Sidebar
mod Membership
mod Panel
mod Requests
mod Channels
mod Forms
