-- ===== src/RoomMembers/Transfer.antt =====
-- Who owns a room after a hand-over.
use talkertive_chat_app.Base.{
  String, true, false, ◌≡◌, refl, ap, ◌∙◌, none, some, ◌==◌, string_eq, pair_eq, List,
  if◌then◌else◌, arith, ◌⊎◌, inl, inr, Bool-cases, some_of_is_some, ◌&&◌, id_iff,
}
use talkertive_chat_app.Schema.{RoomMember, owner, member}
use talkertive_chat_app.World.{World, Clients, is_ok}
use talkertive_chat_app.RoomMembers.{find_member, transfer_owner, is_gone, set_role, holds_owner}
use talkertive_chat_app.RoomMembers.Ownership.{OwnedBy}

module _ (p : Clients) where
  -- All that `transferOwner` may do to the table, by how it ends.
  pub transfer_owner_writes :
      (requester room_id target : String) (w : World)
      → let t = w.room_members in
        let (res, w') = transfer_owner p requester room_id target w in
        ((is_ok res ≡ false) × (w'.room_members ≡ t))
        ⊎ (is_ok res ≡ true)
          × ((requester == target) ≡ false)
          × (is_gone (find_member p room_id requester w) ≡ false)
          × (holds_owner (find_member p room_id requester w) ≡ true)
          × (is_gone (find_member p room_id target w) ≡ false)
          × (w'.room_members
              ≡ p.room_member.update
                  (room_id, target)
                  (set_role owner)
                  (p.room_member.update (room_id, requester) (set_role member) t))
  unfolding transfer_owner
  transfer_owner_writes requester room_id target w = ground arith

  -- What is read from the table once the two roles are swapped.
  pub swapped-find :
      (t : List RoomMember) (room_id requester target r v : String) (m n : RoomMember)
      → (requester == target) ≡ false
      → p.room_member.find_unique (room_id, requester) t ≡ some m
      → p.room_member.find_unique (room_id, target) t ≡ some n
      → p.room_member.find_unique
          (r, v)
          (p.room_member.update
            (room_id, target)
            (set_role owner)
            (p.room_member.update (room_id, requester) (set_role member) t))
        ≡ (if room_id == r && target == v
            then some (set_role owner n)
            else if room_id == r && requester == v
            then some (set_role member m)
            else p.room_member.find_unique (r, v) t)
  swapped-find t room_id requester target r v m n ne qm qn =
      let demoted = p.room_member.find-update (room_id, requester) (set_role member) t in
      let kept = demoted (room_id, target) m qm (p.room_member.find-key qm) in
      let here = (id_iff room_id room_id).1 refl in
      let same = kept ∙ ground (arith, qn) in
      p.room_member.find-update (room_id, target) (set_role owner) _ (r, v) n same
        (p.room_member.find-key qn)
      ∙ ap (λ o. if room_id == r && target == v then some (set_role owner n) else o)
          (demoted (r, v) m qm (p.room_member.find-key qm))

  swapped-OwnedBy :
      (t : List RoomMember) (room_id requester target r u : String) (m n : RoomMember)
      → (requester == target) ≡ false
      → p.room_member.find_unique (room_id, requester) t ≡ some m
      → p.room_member.find_unique (room_id, target) t ≡ some n
      → m.role ≡ owner
      → n.left_at ≡ none
      → OwnedBy p t r u
      → OwnedBy p
          (p.room_member.update
            (room_id, target)
            (set_role owner)
            (p.room_member.update (room_id, requester) (set_role member) t))
          r
          (if room_id == r then target else u)
  swapped-OwnedBy t room_id requester target r u m n ne qm qn own active o =
      elim (Bool-cases (room_id == r)) [
        | inl here ↦
            let e : room_id ≡ r = (id_iff room_id r).0 here in
            let mine : requester ≡ u = o.alone requester m (rw e at qm) own in
            rw here (record {
              row = set_role owner n;
              found = ground (arith, reads target, id_iff target target);
              owns = refl;
              active = active;
              alone = λ v x h it.
                  ground (arith, reads v, o.alone v x, id_iff target v, id_iff requester v);
            })
        | inr other ↦ rw other (record {
          row = o.row;
          found = ground (arith, reads u);
          owns = o.owns;
          active = o.active;
          alone = λ v x h it. ground (arith, reads v, o.alone v x);
        })
      ]
    where
      reads :
          (v : String)
          → p.room_member.find_unique
              (r, v)
              (p.room_member.update
                (room_id, target)
                (set_role owner)
                (p.room_member.update (room_id, requester) (set_role member) t))
            ≡ (if room_id == r && target == v
                then some (set_role owner n)
                else if room_id == r && requester == v
                then some (set_role member m)
                else p.room_member.find_unique (r, v) t)
      reads v = swapped-find t room_id requester target r v m n ne qm qn

  -- Where one user who takes part owns a room, and nobody else does, this is so after
  -- `transferOwner`: in the room of a hand-over that succeeds the owner is then its target, and in
  -- every other case the owner that was.
  pub transfer_owner-OwnedBy :
      (requester room_id target : String) (w : World) (r u : String)
      → OwnedBy p w.room_members r u
      → let (res, w') = transfer_owner p requester room_id target w in
        OwnedBy p w'.room_members r (if is_ok res && room_id == r then target else u)
  transfer_owner-OwnedBy requester room_id target w r u o =
      elim (transfer_owner_writes requester room_id target w) [
        | inl (failed, same) ↦ rw (failed, same) o
        | inr (done, ne, pr, hr, pt, written) ↦
            let (m, qm) = some_of_is_some (find_member p room_id requester w) (ground arith) in
            let (n, qn) = some_of_is_some (find_member p room_id target w) (ground arith) in
            rw (done, written)
              (swapped-OwnedBy w.room_members room_id requester target r u m n ne qm qn
                (ground arith) (ground arith) o)
      ]
