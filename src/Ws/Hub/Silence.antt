-- ===== src/Ws/Hub/Silence.antt =====
-- Who has left internal/services/ws/hub.go gets no message.
use go_backend_core.Prelude.{
  ℕ, ◌≡◌, refl, ◌≢◌, ap, sym, ◌∙◌, true, false, inl, inr, none, some, List, [], ◌∷◌, String, All,
  In, arith, if◌then◌else◌, Bool-cases,
}
use go_backend_core.Prelude.Equality.{◌==◌, nat_eq, string_eq, equals_refl}
use go_backend_core.Prelude.Dict.{Dict, read, read-delete}
use go_backend_core.Prelude.Entries.{IsMap, read-In}
use go_backend_core.Ws.Hub.{
  Client, Message, Hub, deliver, has_space, deliver_members, deliver_all, is_excluded,
  remove_from_all, or_empty, new_hub, unregister, broadcast_to_room, broadcast_all, send_to,
  send_to_client, Call, run,
}
use go_backend_core.Ws.Hub.Membership.{
  member, IsConsistent, member-remove_from_all, member-remove_from_all_self,
}
use go_backend_core.Ws.Hub.Consistency.{unregister-IsConsistent, run_hub-IsConsistent}

deliver_other :
    (payload : List ℕ) (p q : ℕ) (objects : ℕ → Client)
    → q ≢ p
    → deliver payload q objects p ≡ objects p
deliver_other payload p q objects ne = elim (Bool-cases (has_space (objects q))) [
  | inr full ↦ rw full refl
  | inl space ↦
      let apart : (p == q) ≡ false =
        ground (arith, nat_eq.equals_iff p q, λ (e : p ≡ q). ne (sym e)) in
      rw (space, apart) refl
]

deliver_members_other :
    (payload : List ℕ) (exclude : List String) (p : ℕ) (members : Dict String ℕ)
    (objects : ℕ → Client)
    → All (λ (e : String × ℕ). e.1 ≢ p) members
    → deliver_members payload exclude members objects p ≡ objects p
unfolding deliver_members
deliver_members_other payload exclude p [] objects h = refl
deliver_members_other payload exclude p ((key, q) ∷ members) objects (ne, h) =
    deliver_members_other payload exclude p members
      (if is_excluded exclude (objects q).id then objects else deliver payload q objects) h
    ∙ elim (Bool-cases (is_excluded exclude (objects q).id)) [
      | inl out ↦ rw out refl
      | inr there ↦ rw there (deliver_other payload p q objects ne)
    ]

deliver_all_other :
    (payload : List ℕ) (p : ℕ) (clients : Dict String ℕ) (objects : ℕ → Client)
    → All (λ (e : String × ℕ). e.1 ≢ p) clients
    → deliver_all payload clients objects p ≡ objects p
unfolding deliver_all
deliver_all_other payload p [] objects h = refl
deliver_all_other payload p ((key, q) ∷ clients) objects (ne, h) =
    deliver_all_other payload p clients (deliver payload q objects) h
    ∙ deliver_other payload p q objects ne

-- A value that no key reads is in no entry.
unlisted :
    (p : ℕ) (m : Dict String ℕ)
    → IsMap m
    → ((key : String) → read key m ≢ some p)
    → All (λ (e : String × ℕ). e.1 ≢ p) m
unlisted p m once h = collect m (λ key there. h key (read-In key p m once there))
  where
    collect :
        (d : Dict String ℕ)
        → ((key : String) → ¬ (In (key, p) d))
        → All (λ (e : String × ℕ). e.1 ≢ p) d
    collect [] none_in = tt
    collect ((key, q) ∷ d) none_in = (
      (λ e. none_in key (inl (ap (λ x. (key, x)) e))),
      collect d (λ k there. none_in k (inr there)),
    )

none-ne : (p : ℕ) → ¬ (none ≡ some p)
none-ne p h = cc

module _ {Handler : Type 0} where
  not_registered :
      (p : ℕ) (h : Hub Handler)
      → IsConsistent h
      → (id : String) → read id (unregister p h).clients ≢ some p
  unfolding unregister
  not_registered p h c id found = ground (
    arith,
    read-delete (h.objects p).id id h.clients,
    string_eq.equals_iff (h.objects p).id id,
    c.known id p,
  )

  not_member :
      (p : ℕ) (h : Hub Handler)
      → IsConsistent h
      → (room id : String) → member (unregister p h).rooms room id ≢ some p
  unfolding unregister
  not_member p h c room id there =
      let own = (h.objects p).id in
      let was = member-remove_from_all (h.objects p).rooms own room id p h.rooms there in
      let (same, knows) = c.joined room id p was in
      let out : member (remove_from_all (h.objects p).rooms own h.rooms) room own ≡ none =
        member-remove_from_all_self (h.objects p).rooms own room true h.rooms knows in
      none-ne p
        (sym out ∙ ap (member (remove_from_all (h.objects p).rooms own h.rooms) room) same ∙ there)

  gone : (p : ℕ) (h : Hub Handler) → read (h.objects p).id (unregister p h).clients ≡ none
  unfolding unregister
  gone p h = let own = (h.objects p).id in rw (read-delete own own h.clients, equals_refl own) refl

  own_id : (p : ℕ) (h : Hub Handler) → ((unregister p h).objects p).id ≡ (h.objects p).id
  unfolding unregister
  own_id p h = rw (equals_refl p) refl

  own_id_gone :
      (p : ℕ) (h : Hub Handler)
      → read ((unregister p h).objects p).id (unregister p h).clients ≡ none
  own_id_gone p h = ap (λ i. read i (unregister p h).clients) (own_id p h) ∙ gone p h

  -- Once a client is unregistered, after any calls on a new hub, no broadcast to a room or to all
  -- reaches it, and its id is answered as unknown, with nothing changed.
  pub unregister_silences :
      (objects : ℕ → Client) (cs : List Call) (p : ℕ) (msg : Message)
      → (let h = unregister p (run cs (new_hub {Handler = Handler} objects)) in
          ((room : String) (exclude : List String)
            → (broadcast_to_room room msg exclude h).objects p ≡ h.objects p)
          × ((broadcast_all msg h).objects p ≡ h.objects p)
          × (send_to_client (h.objects p).id msg h ≡ (h, false)))
  unfolding broadcast_to_room broadcast_all send_to_client
  unregister_silences objects cs p msg =
      let before = run cs (new_hub {Handler = Handler} objects) in
      let c : IsConsistent before = run_hub-IsConsistent objects cs in
      let h = unregister p before in
      let c' : IsConsistent h = unregister-IsConsistent p before c in
      (
        λ room exclude.
            deliver_members_other msg.payload exclude p (or_empty (read room h.rooms)) h.objects (
              unlisted p (or_empty (read room h.rooms)) (c'.members_once room)
                (λ id. not_member p before c room id)),
        deliver_all_other msg.payload p h.clients h.objects
            (unlisted p h.clients c'.once (not_registered p before c)),
        ap (send_to msg h) (own_id_gone p before),
      )
