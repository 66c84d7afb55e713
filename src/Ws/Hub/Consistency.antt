-- ===== src/Ws/Hub/Consistency.antt =====
-- Whatever is called on the hub of internal/services/ws/hub.go, ids and rooms stay consistent.
use go_backend_core.Prelude.{
  ℕ, ◌≡◌, refl, ap, sym, subst, ◌∙◌, ◌⊎◌, ◌&&◌, Bool, true, false, inl, inr, Option, none, some,
  List, [], ◌∷◌, String, arith, Bool-cases, Option-cases,
}
use go_backend_core.Prelude.Equality.{◌==◌, nat_eq, string_eq, equals_refl}
use go_backend_core.Prelude.Dict.{
  Dict, read, write, delete, read-write, read-write_self, read-delete,
}
use go_backend_core.Prelude.Entries.{IsMap, write-IsMap, delete-IsMap}
use go_backend_core.Ws.Hub.{
  Client, Message, Hub, update, remove_member, remove_from_all, or_empty, new_hub, register,
  unregister, join_room, leave_room, broadcast_to_room, broadcast_all, send_to, send_to_client,
  send_to_user, Call, registers, unregisters, joins, leaves, broadcasts, announces, sends,
  writes_user, step, run,
}
use go_backend_core.Ws.Hub.Membership.{
  member, member_at, IsConsistent, member-remove_member, member-remove_from_all, or_empty-keep_room,
}
use go_backend_core.Ws.Hub.Deliveries.{
  update_SameClients, deliver-SameClients, deliver_members-SameClients, deliver_all-SameClients,
  deliver_user-SameClients, objects-IsConsistent,
}

-- What is registered under an id, after one more registration.
registered :
    (p q : ℕ) (own id : String) (clients : Dict String ℕ)
    → read id (write own p clients) ≡ some q
    → ((own ≡ id) × (p ≡ q)) ⊎ (read id clients ≡ some q)
registered p q own id clients found =
    let split = rw (read-write own id p clients) at found in
    elim (Bool-cases (own == id)) [
      | inl same ↦ inl ((string_eq.equals_iff own id).0 same, some_injective (rw same at split))
      | inr apart ↦ inr (rw apart at split)
    ]
  where
    some_injective : {x y : ℕ} → some x ≡ some y → x ≡ y
    some_injective h = cc

id-update :
    (p : ℕ) (c : Client) (objects : ℕ → Client) (q : ℕ)
    → c.id ≡ (objects p).id
    → (update p c objects q).id ≡ (objects q).id
id-update p c objects q h = elim (Bool-cases (q == p)) [
  | inr apart ↦ rw apart refl
  | inl same ↦ rw same (h ∙ ap (λ x. (objects x).id) (sym ((nat_eq.equals_iff q p).0 same)))
]

IsMap-remove_member :
    (room id r : String) (rooms : Dict String (Dict String ℕ))
    → IsMap (or_empty (read room rooms))
    → IsMap (or_empty (read r rooms))
    → IsMap (or_empty (read r (remove_member room id rooms)))
unfolding remove_member
IsMap-remove_member room id r rooms here there = elim (Option-cases (read room rooms)) [
  | inl none_there ↦ rw none_there there
  | inr (members, found) ↦
      let once : IsMap members = rw found at here in
      rw (found, or_empty-keep_room room r (delete id members) rooms)
        (elim (Bool-cases (room == r)) [
          | inl same ↦ rw same (delete-IsMap id members once)
          | inr apart ↦ rw apart there
        ])
]

IsMap-remove_from_all :
    (joined : Dict String Bool) (id : String) (rooms : Dict String (Dict String ℕ))
    → ((r : String) → IsMap (or_empty (read r rooms)))
    → (r : String) → IsMap (or_empty (read r (remove_from_all joined id rooms)))
unfolding remove_from_all
IsMap-remove_from_all [] id rooms once = once
IsMap-remove_from_all ((room, j) ∷ rest) id rooms once =
    IsMap-remove_from_all rest id (remove_member room id rooms)
      (λ r. IsMap-remove_member room id r rooms (once room) (once r))

abbrev joined_to : String → Client → Client
joined_to room c = record c { rooms = write room true c.rooms }

abbrev gone_from : String → Client → Client
gone_from room c = record c { rooms = delete room c.rooms }

IsMap-room :
    (room r : String) (ms : Dict String ℕ) (rooms : Dict String (Dict String ℕ))
    → IsMap ms
    → IsMap (or_empty (read r rooms))
    → IsMap (or_empty (read r (write room ms rooms)))
IsMap-room room r ms rooms h k =
    rw (read-write room r ms rooms)
      (elim (Bool-cases (room == r)) [ inl same ↦ rw same h | inr apart ↦ rw apart k ])

-- Who is in a room after one has joined it.
joined_or_was :
    (room own r i : String) (p q : ℕ) (rooms : Dict String (Dict String ℕ))
    → member (write room (write own p (or_empty (read room rooms))) rooms) r i ≡ some q
    → ((room ≡ r) × (own ≡ i) × (p ≡ q)) ⊎ (member rooms r i ≡ some q)
joined_or_was room own r i p q rooms there =
    let split = rw (read-write room r (write own p (or_empty (read room rooms))) rooms) at there in
    elim (Bool-cases (room == r)) [
      | inr apart ↦ inr (rw apart at split)
      | inl same ↦
          let e : room ≡ r = (string_eq.equals_iff room r).0 same in
          elim (registered p q own i (or_empty (read room rooms)) (rw same at split)) [
            | inl (named, is) ↦ inl (e, named, is)
            | inr was ↦ inr (member_at room r i rooms (read room rooms) e refl ∙ was)
          ]
    ]

-- Who is in a room after one has left a room.
left_or_was :
    (room own r i : String) (q : ℕ) (rooms : Dict String (Dict String ℕ))
    → member (remove_member room own rooms) r i ≡ some q
    → ((room == r && own == i) ≡ false) × (member rooms r i ≡ some q)
left_or_was room own r i q rooms there = ground (arith, member-remove_member room own r i rooms)

knows_own :
    (room : String) (p : ℕ) (objects : ℕ → Client)
    → read room (update p (joined_to room (objects p)) objects p).rooms ≡ some true
knows_own room p objects = rw (equals_refl p) (read-write_self room true (objects p).rooms)

still_knows :
    (room r : String) (p q : ℕ) (objects : ℕ → Client)
    → read r (objects q).rooms ≡ some true
    → read r (update p (joined_to room (objects p)) objects q).rooms ≡ some true
still_knows room r p q objects knows = elim (Bool-cases (q == p)) [
  | inr apart ↦ rw apart knows
  | inl same ↦
      let here : read r (objects p).rooms ≡ some true =
        ap (λ x. read r (objects x).rooms) (sym ((nat_eq.equals_iff q p).0 same)) ∙ knows in
      rw (same, read-write room r true (objects p).rooms) (ground (arith, here))
]

knows_others :
    (room r i : String) (p q : ℕ) (objects : ℕ → Client)
    → (room == r && (objects p).id == i) ≡ false
    → (objects q).id ≡ i
    → read r (objects q).rooms ≡ some true
    → read r (update p (gone_from room (objects p)) objects q).rooms ≡ some true
knows_others room r i p q objects other named knows = elim (Bool-cases (q == p)) [
  | inr apart ↦ rw apart knows
  | inl same ↦
      let back : p ≡ q = sym ((nat_eq.equals_iff q p).0 same) in
      let here : read r (objects p).rooms ≡ some true =
        ap (λ x. read r (objects x).rooms) back ∙ knows in
      let own : (objects p).id ≡ i = ap (λ x. (objects x).id) back ∙ named in
      let apart : (room == r) ≡ false = ground (arith, string_eq.equals_iff (objects p).id i) in
      rw (same, read-delete room r (objects p).rooms, apart) here
]

module _ {Handler : Type 0} where
  register-IsConsistent : (p : ℕ) (h : Hub Handler) → IsConsistent h → IsConsistent (register p h)
  unfolding register
  register-IsConsistent p h c = record {
    known = λ id q found. elim (registered p q (h.objects p).id id h.clients found) [
      | inl (same, is) ↦ ap (λ x. (h.objects x).id) (sym is) ∙ same
      | inr there ↦ c.known id q there
    ];
    joined = c.joined;
    once = write-IsMap _ p h.clients c.once;
    members_once = c.members_once;
  }

  pub unregister-IsConsistent :
      (p : ℕ) (h : Hub Handler) → IsConsistent h → IsConsistent (unregister p h)
  unfolding unregister
  unregister-IsConsistent p h c =
      let own = (h.objects p).id in
      let same = update_SameClients p _ h.objects refl refl in
      let gone : Hub Handler = record h {
        clients = delete own h.clients;
        rooms = remove_from_all (h.objects p).rooms own h.rooms;
      } in
      objects-IsConsistent gone _ same (record {
        known = λ id q found. c.known id q (still id q found);
        joined = λ room id q there.
            c.joined room id q
              (member-remove_from_all (h.objects p).rooms own room id q h.rooms there);
        once = delete-IsMap own h.clients c.once;
        members_once = IsMap-remove_from_all (h.objects p).rooms own h.rooms c.members_once;
      })
    where
      still :
          (id : String) (q : ℕ)
          → read id (delete (h.objects p).id h.clients) ≡ some q
          → read id h.clients ≡ some q
      still id q found = ground (arith, read-delete (h.objects p).id id h.clients)

  join_room-IsConsistent :
      (room : String) (p : ℕ) (h : Hub Handler) → IsConsistent h → IsConsistent (join_room room p h)
  unfolding join_room
  join_room-IsConsistent room p h c = record {
    known = λ id q found.
        id-update p (joined_to room (h.objects p)) h.objects q refl ∙ c.known id q found;
    joined = λ r i q there. elim (joined_or_was room (h.objects p).id r i p q h.rooms there) [
      | inl (same_room, same, is) ↦ (
        id-update p (joined_to room (h.objects p)) h.objects q refl
            ∙ ap (λ x. (h.objects x).id) (sym is)
            ∙ same,
        subst (λ x. read r (update p (joined_to room (h.objects p)) h.objects x).rooms ≡ some true)
            is
            (subst
              (λ x. read x (update p (joined_to room (h.objects p)) h.objects p).rooms ≡ some true)
              same_room (knows_own room p h.objects)),
      )
      | inr was ↦
          let (named, knows) = c.joined r i q was in
          (
            id-update p (joined_to room (h.objects p)) h.objects q refl ∙ named,
            still_knows room r p q h.objects knows,
          )
    ];
    once = c.once;
    members_once = λ r.
        IsMap-room room r (write (h.objects p).id p (or_empty (read room h.rooms))) h.rooms
          (write-IsMap (h.objects p).id p (or_empty (read room h.rooms)) (c.members_once room))
          (c.members_once r);
  }

  leave_room-IsConsistent :
      (room : String) (p : ℕ) (h : Hub Handler)
      → IsConsistent h
      → IsConsistent (leave_room room p h)
  unfolding leave_room
  leave_room-IsConsistent room p h c = record {
    known = λ id q found.
        id-update p (gone_from room (h.objects p)) h.objects q refl ∙ c.known id q found;
    joined = λ r i q there.
        let (other, was) = left_or_was room (h.objects p).id r i q h.rooms there in
        let (named, knows) = c.joined r i q was in
        (
          id-update p (gone_from room (h.objects p)) h.objects q refl ∙ named,
          knows_others room r i p q h.objects other named knows,
        );
    once = c.once;
    members_once = λ r.
        IsMap-remove_member room (h.objects p).id r h.rooms (c.members_once room)
          (c.members_once r);
  }

  send_to-IsConsistent :
      (msg : Message) (h : Hub Handler) (found : Option ℕ)
      → IsConsistent h
      → IsConsistent (send_to msg h found).0
  send_to-IsConsistent msg h none c = c
  send_to-IsConsistent msg h (some p) c =
      objects-IsConsistent h _ (deliver-SameClients msg.payload p h.objects) c

  step-IsConsistent : (call : Call) (h : Hub Handler) → IsConsistent h → IsConsistent (step call h)
  unfolding step broadcast_to_room broadcast_all send_to_client send_to_user
  step-IsConsistent (registers p) h c = register-IsConsistent p h c
  step-IsConsistent (unregisters p) h c = unregister-IsConsistent p h c
  step-IsConsistent (joins room p) h c = join_room-IsConsistent room p h c
  step-IsConsistent (leaves room p) h c = leave_room-IsConsistent room p h c
  step-IsConsistent (broadcasts room msg exclude) h c =
      objects-IsConsistent h _
        (deliver_members-SameClients msg.payload exclude (or_empty (read room h.rooms)) h.objects) c
  step-IsConsistent (announces msg) h c =
      objects-IsConsistent h _ (deliver_all-SameClients msg.payload h.clients h.objects) c
  step-IsConsistent (sends id msg) h c = send_to-IsConsistent msg h (read id h.clients) c
  step-IsConsistent (writes_user user msg) h c =
      objects-IsConsistent h _ (deliver_user-SameClients user msg.payload h.clients h.objects false)
        c

  run-IsConsistent : (cs : List Call) (h : Hub Handler) → IsConsistent h → IsConsistent (run cs h)
  unfolding run
  run-IsConsistent [] h c = c
  run-IsConsistent (call ∷ cs) h c = run-IsConsistent cs (step call h) (step-IsConsistent call h c)

  -- After any calls on a new hub, each registered client has the id it is registered under, each
  -- member of a room has the id it is listed under and knows that it is in the room, and no id is
  -- listed twice.
  pub run_hub-IsConsistent :
      (objects : ℕ → Client) (cs : List Call)
      → IsConsistent (run cs (new_hub {Handler = Handler} objects))
  unfolding read
  run_hub-IsConsistent objects cs = run-IsConsistent cs (new_hub objects) (record {
    known = λ id q h. cc;
    joined = λ room id q h. cc;
    once = tt;
    members_once = λ r. tt;
  })
