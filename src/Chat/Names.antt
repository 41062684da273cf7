-- ===== src/Chat/Names.antt =====
-- The names of the gateway's channels: two rooms do not share one.
use Prim.Native.String.{len, slice}
use text.Mathlib.TextPositions.{slice-append_left, slice-append_right, len-append}
use talkertive_chat_app.Base.{
  ◌+◌, String, Bool, false, ◌≡◌, sym, ap, ◌∙◌, ◌==◌, string_eq, inl, inr, arith, id_iff, Bool-cases,
}
use talkertive_chat_app.Chat.Gateway.{room_channel, user_channel}

room_channel-inj : (q r : String) → room_channel q ≡ room_channel r → q ≡ r
room_channel-inj q r e =
    let same : len "room:" + len q ≡ len "room:" + len r =
      sym (len-append "room:" q) ∙ ap len e ∙ len-append "room:" r in
    sym (slice-append_right "room:" q)
    ∙ ap (λ s. slice s (len "room:") (len "room:" + len q)) e
    ∙ ap (λ n. slice (room_channel r) (len "room:") n) same
    ∙ slice-append_right "room:" r

pub room_channel-eq : (q r : String) → (room_channel q == room_channel r) ≡ (q == r)
room_channel-eq q r = elim (Bool-cases (q == r)) [
  | inl same ↦ ground (arith, id_iff q r, id_iff (room_channel q) (room_channel r))
  | inr other ↦
      ground (arith, id_iff q r, id_iff (room_channel q) (room_channel r), room_channel-inj q r)
]

abbrev is_room_prefix : String → Bool
is_room_prefix s = s == "room:"

-- The channel of a user is no room's.
pub user_channel-eq : (u r : String) → (user_channel u == room_channel r) ≡ false
user_channel-eq u r = elim (Bool-cases (user_channel u == room_channel r)) [
  | inr other ↦ other
  | inl same ↦
      let e : user_channel u ≡ room_channel r = (id_iff (user_channel u) (room_channel r)).0 same in
      let heads : "user:" ≡ "room:" =
        sym (slice-append_left "user:" u) ∙ ap (λ s. slice s 0 5) e ∙ slice-append_left "room:" r in
      let differ : is_room_prefix "user:" ≡ is_room_prefix "room:" = ap is_room_prefix heads in
      absurd (ground (arith, differ))
]
