-- ===== src/Rooms/Upkeep.antt =====
-- What the methods of the room services and of the media service do to the ownership of rooms.
use talkertive_chat_app.Base.{
  String, true, false, ◌≡◌, sym, subst, ◌∙◌, some, List, ◌==◌, string_eq, pair_eq, arith, id_iff,
  is_some, inl, inr, ◌⊎◌, Option-cases, Bool-cases,
}
use talkertive_chat_app.Schema.{Room, RoomMember, member}
use talkertive_chat_app.World.{
  World, Clients, Action, update_in, create_in, update_room, create_room, create_member,
  delete_room_row, update_member, member_key,
}
use talkertive_chat_app.World.Keeps.{Keeps}
use talkertive_chat_app.World.Preserves.{Preserves}
use talkertive_chat_app.RoomMembers.{find_member}
use talkertive_chat_app.RoomMembers.Ownership.{OwnedBy, update-OwnedBy, create-OwnedBy}
use talkertive_chat_app.RoomMembers.Placement.{IsPlaced, update-IsPlaced}
use talkertive_chat_app.RoomMembers.Lifecycle.{IsOwned}
use talkertive_chat_app.Rooms.Kinds.{is_group}

-- Every member row is of a room that is there, and every group room has one owner, who takes part.
abbrev pub HasOwners : (p : Clients) → World → Type 0
HasOwners p w = IsPlaced p w.rooms w.room_members × IsOwned p w

-- The tables that decide who owns what.
abbrev pub tables : World → List Room × List RoomMember
tables w = (w.rooms, w.room_members)

module _ (p : Clients) where
  pub of_tables : (v w : World) → tables v ≡ tables w → HasOwners p w → HasOwners p v
  of_tables v w same (placed, owned) =
      subst
        (λ (t : List Room × List RoomMember).
          IsPlaced p t.0 t.1 × IsOwned p (record w { rooms = t.0; room_members = t.1 }))
        (sym same) (placed, owned)

  pub same-Preserves :
      {A C : Type 0} (m : Action A) (k : Action C) (w : World)
      → (tables (m w).1 ≡ tables w) ⊎ (tables (m w).1 ≡ tables (k w).1)
      → Preserves (HasOwners p) k
      → HasOwners p w
      → HasOwners p (m w).1
  same-Preserves m k w (inl same) hk h = of_tables (m w).1 w same h
  same-Preserves m k w (inr as_k) hk h = of_tables (m w).1 (k w).1 as_k (hk w h)

  -- What leaves the two tables alone leaves the owners.
  pub tables-Preserves : {A : Type 0} (m : Action A) → Keeps tables m → Preserves (HasOwners p) m
  tables-Preserves m k w h = of_tables (m w).1 w (k w) h

  updated-IsOwned :
      (w : World) (id : String) (f : Room → Room) (x : Room)
      → p.room.find_unique id w.rooms ≡ some x
      → (f x).id ≡ id
      → (f x).type ≡ x.type
      → IsOwned p w
      → IsOwned p (record w { rooms = p.room.update id f w.rooms })
  updated-IsOwned w id f x q k kind owned r y h g =
      let read = p.room.find-update id f w.rooms r x q k in
      elim (Bool-cases (id == r)) [
        | inl same ↦ owned r x (ground (arith, id_iff id r)) (ground (arith, read))
        | inr other ↦ owned r y (ground (arith, read)) g
      ]

  -- A change of a room that keeps its identifier and its kind.
  pub update_room-HasOwners :
      (id : String) (f : Room → Room)
      → ((r : Room) → (f r).id ≡ r.id)
      → ((r : Room) → (f r).type ≡ r.type)
      → Preserves (HasOwners p) (update_room p id f)
  unfolding update_room
  update_room-HasOwners id f same kind w (placed, owned) =
      elim (Option-cases (p.room.find_unique id w.rooms)) [
        | inl missing ↦ rw (missing, update_in) (placed, owned)
        | inr (x, q) ↦
            let k = same x ∙ p.room.find-key q in
            rw (q, update_in)
              (
                λ r v m h. ground (arith, placed r v m h, p.room.find-update id f w.rooms r x q k),
                updated-IsOwned w id f x q k (kind x) owned,
              )
      ]

  -- A row that is left of a deletion of a room's members was there, and of another room.
  spared-find :
      (t : List RoomMember) (id r v : String) (m : RoomMember)
      → p.room_member.find_unique (r, v) (p.room_member.delete_many (λ m. m.room_id == id) t)
        ≡ some m
      → (p.room_member.find_unique (r, v) t ≡ some m) × ((id == r) ≡ false)
  spared-find t id r v m h = elim (Option-cases (p.room_member.find_unique (r, v) t)) [
    | inl missing ↦
        absurd (ground (arith, p.room_member.find-delete_many (λ m. m.room_id == id) t (r, v)))
    | inr (n, q) ↦
        let k = p.room_member.find-key q in
        let read = p.room_member.find-delete_many (λ m. m.room_id == id) t (r, v) in
        (ground (arith, read), ground (arith, read, id_iff id r, id_iff n.room_id id))
  ]

  find-spared :
      (t : List RoomMember) (id r v : String) (m : RoomMember)
      → p.room_member.find_unique (r, v) t ≡ some m
      → (id == r) ≡ false
      → p.room_member.find_unique (r, v) (p.room_member.delete_many (λ m. m.room_id == id) t)
        ≡ some m
  find-spared t id r v m q other = ground (
    arith,
    p.room_member.find-key q,
    p.room_member.find-delete_many (λ m. m.room_id == id) t (r, v),
    id_iff id r,
    id_iff m.room_id id,
  )

  deleted-OwnedBy :
      (t : List RoomMember) (id r u : String)
      → (id == r) ≡ false
      → OwnedBy p t r u
      → OwnedBy p (p.room_member.delete_many (λ m. m.room_id == id) t) r u
  deleted-OwnedBy t id r u other o = record {
    row = o.row;
    found = find-spared t id r u o.row o.found other;
    owns = o.owns;
    active = o.active;
    alone = λ v m h own. o.alone v m (spared-find t id r v m h).0 own;
  }

  pub delete_room_row-HasOwners : (id : String) → Preserves (HasOwners p) (delete_room_row p id)
  unfolding delete_room_row
  delete_room_row-HasOwners id w (placed, owned) =
      elim (Option-cases (p.room.find_unique id w.rooms)) [
        | inl missing ↦ rw (missing, delete_room_row) (placed, owned)
        | inr (x, q) ↦
            rw (q, delete_room_row)
              (
                λ r v m h.
                    let (found, other) = spared-find w.room_members id r v m h in
                    ground (arith, placed r v m found, p.room.find-delete id w.rooms r),
                λ r y h g.
                    let read = p.room.find-delete id w.rooms r in
                    let other : (id == r) ≡ false = ground (arith, read) in
                    let (u, o) = owned r y (ground (arith, read)) g in
                    (u, deleted-OwnedBy w.room_members id r u other o),
              )
      ]

  -- A new room that is not a group room.
  pub create_room-HasOwners :
      (room : Room) → is_group room.type ≡ false → Preserves (HasOwners p) (create_room p room)
  unfolding create_room
  create_room-HasOwners room kind w (placed, owned) =
      elim (Bool-cases (p.room.admits room w.rooms)) [
        | inr refused ↦ rw (refused, create_in) (placed, owned)
        | inl admitted ↦
            rw (admitted, create_in)
              (
                λ r v m h.
                    ground (arith, placed r v m h, p.room.find-create room w.rooms r admitted),
                λ r y h g. owned r y (ground (arith, p.room.find-create room w.rooms r admitted)) g,
              )
      ]

  create_member_writes :
      (m : RoomMember) (w : World)
      → let w' = (create_member p m w).1 in
        (w' ≡ w)
        ⊎ (p.room_member.admits m w.room_members ≡ true)
          × (is_some (p.room.find_unique m.room_id w.rooms) ≡ true)
          × (w' ≡ record w { room_members = p.room_member.create m w.room_members })
  unfolding create_member
  create_member_writes m w = ground arith

  -- A new member row that says member.
  pub create_member-HasOwners :
      (m : RoomMember) → m.role ≡ member → Preserves (HasOwners p) (create_member p m)
  create_member-HasOwners m role w (placed, owned) = elim (create_member_writes m w) [
    | inl same ↦ rw same (placed, owned)
    | inr (admitted, here, written) ↦ rw written (
      λ r v x h. ground (
        arith,
        placed r v x,
        p.room_member.find-create m w.room_members (r, v) admitted,
        id_iff m.room_id r,
      ),
      λ r y h g.
          let (u, o) = owned r y h g in (u, create-OwnedBy p w.room_members r u m admitted role o),
    )
  ]

  -- A change of a member row that keeps its role and whether the member takes part.
  pub update_member-HasOwners :
      (room_id user_id : String) (f : RoomMember → RoomMember)
      → ((m : RoomMember)
          → (member_key (f m) ≡ member_key m) × ((f m).role ≡ m.role) × ((f m).left_at ≡ m.left_at))
      → Preserves (HasOwners p) (update_member p room_id user_id f)
  unfolding update_member
  update_member-HasOwners room_id user_id f same w (placed, owned) =
      elim (Option-cases (find_member p room_id user_id w)) [
        | inl missing ↦ rw (missing, update_in) (placed, owned)
        | inr (m, q) ↦
            let k = (same m).0 ∙ p.room_member.find-key q in
            rw (q, update_in)
              (
                update-IsPlaced p w.rooms w.room_members room_id user_id f m q k placed,
                λ r y h g.
                    let (u, o) = owned r y h g in
                    (
                      u,
                      update-OwnedBy p w.room_members r u room_id user_id f m q k (λ _. (same m).1)
                          (λ here own.
                            (same m).2 ∙ ground (arith, o.found, o.active, o.alone user_id m))
                          o,
                    ),
              )
      ]
