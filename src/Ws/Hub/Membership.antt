-- ===== src/Ws/Hub/Membership.antt =====
-- Who is in the rooms of internal/services/ws/hub.go.
use go_backend_core.Prelude.{
  ℕ, ◌≡◌, refl, ap, sym, ◌∙◌, ◌&&◌, Bool, true, inl, inr, Option, none, some, [], ◌∷◌, String,
  arith, if◌then◌else◌, Bool-cases,
}
use go_backend_core.Prelude.Equality.{◌==◌, nat_eq, string_eq}
use go_backend_core.Prelude.Dict.{Dict, read, delete, read-write, read-delete}
use go_backend_core.Prelude.Entries.{IsMap}
use go_backend_core.Ws.Hub.{
  Hub, keep_room, remove_member, without_member, remove_from_all, or_empty,
}

-- The client of an id in a room.
abbrev pub member : Dict String (Dict String ℕ) → String → String → Option ℕ
member rooms room id = read id (or_empty (read room rooms))

pub member_at :
    (room r i : String) (rooms : Dict String (Dict String ℕ)) (found : Option (Dict String ℕ))
    → room ≡ r
    → read room rooms ≡ found
    → member rooms r i ≡ read i (or_empty found)
member_at room r i rooms found e h =
    ap (λ x. member rooms x i) (sym e) ∙ ap (λ o. read i (or_empty o)) h

pub or_empty-keep_room :
    (room r : String) (ms : Dict String ℕ) (rooms : Dict String (Dict String ℕ))
    → or_empty (read r (keep_room room ms rooms))
      ≡ (if room == r then ms else or_empty (read r rooms))
or_empty-keep_room room r [] rooms =
    rw (read-delete room r rooms)
      (elim (Bool-cases (room == r)) [ inl same ↦ rw same refl | inr apart ↦ rw apart refl ])
or_empty-keep_room room r (m ∷ ms) rooms =
    rw (read-write room r (m ∷ ms) rooms)
      (elim (Bool-cases (room == r)) [ inl same ↦ rw same refl | inr apart ↦ rw apart refl ])

pub nobody : (i : String) → read {Value = ℕ} i [] ≡ none
unfolding read
nobody i = refl

removed :
    (room id r i : String) (rooms : Dict String (Dict String ℕ)) (found : Option (Dict String ℕ))
    → read room rooms ≡ found
    → member (without_member room id rooms found) r i
      ≡ (if room == r && id == i then none else member rooms r i)
removed room id r i rooms none h = elim (Bool-cases (room == r && id == i)) [
  | inr apart ↦ rw apart refl
  | inl same ↦
      rw same
        (member_at room r i rooms none (ground (arith, string_eq.equals_iff room r)) h ∙ nobody i)
]
removed room id r i rooms (some members) h =
    ap (read i) (or_empty-keep_room room r (delete id members) rooms)
    ∙ elim (Bool-cases (room == r)) [
      | inr apart ↦ rw apart refl
      | inl same ↦
          rw
            (
              same,
              read-delete id i members,
              member_at room r i rooms (some members) ((string_eq.equals_iff room r).0 same) h,
            )
            refl
    ]

pub member-remove_member :
    (room id r i : String) (rooms : Dict String (Dict String ℕ))
    → member (remove_member room id rooms) r i
      ≡ (if room == r && id == i then none else member rooms r i)
unfolding remove_member
member-remove_member room id r i rooms = removed room id r i rooms (read room rooms) refl

-- Leaving rooms adds nobody to any room.
pub member-remove_from_all :
    (joined : Dict String Bool) (id r i : String) (q : ℕ) (rooms : Dict String (Dict String ℕ))
    → member (remove_from_all joined id rooms) r i ≡ some q
    → member rooms r i ≡ some q
unfolding remove_from_all
member-remove_from_all [] id r i q rooms h = h
member-remove_from_all ((room, yes_joined) ∷ rest) id r i q rooms h = ground (
  arith,
  member-remove_from_all rest id r i q (remove_member room id rooms) h,
  member-remove_member room id r i rooms,
)

-- Leaving rooms keeps whoever is out of a room out of it.
stays_out :
    (joined : Dict String Bool) (id r : String) (rooms : Dict String (Dict String ℕ))
    → member rooms r id ≡ none
    → member (remove_from_all joined id rooms) r id ≡ none
unfolding remove_from_all
stays_out [] id r rooms h = h
stays_out ((room, j) ∷ rest) id r rooms h =
    stays_out rest id r (remove_member room id rooms)
      (ground (arith, member-remove_member room id r id rooms))

-- Whoever leaves all its rooms is in none of them.
pub member-remove_from_all_self :
    (joined : Dict String Bool) (id r : String) (b : Bool) (rooms : Dict String (Dict String ℕ))
    → read r joined ≡ some b
    → member (remove_from_all joined id rooms) r id ≡ none
unfolding remove_from_all read
member-remove_from_all_self [] id r b rooms h = cc
member-remove_from_all_self ((room, j) ∷ rest) id r b rooms h = elim (Bool-cases (room == r)) [
  | inr apart ↦
      member-remove_from_all_self rest id r b (remove_member room id rooms) (rw apart at h)
  | inl same ↦
      stays_out rest id r (remove_member room id rooms)
        (ground (arith, member-remove_member room id r id rooms, string_eq.equals_iff id id))
]

-- What holds of the clients and rooms after any calls.
pub record IsConsistent {Handler : Type 0} (h : Hub Handler) : Type 0 where
  -- A client is registered under its own id.
  pub known : (id : String) (q : ℕ) → read id h.clients ≡ some q → (h.objects q).id ≡ id
  -- The client of an id in a room has that id, and knows that it is in the room.
  pub joined :
      (room id : String) (q : ℕ)
      → member h.rooms room id ≡ some q
      → ((h.objects q).id ≡ id) × (read room (h.objects q).rooms ≡ some true)
  pub once : IsMap h.clients
  pub members_once : (room : String) → IsMap (or_empty (read room h.rooms))
