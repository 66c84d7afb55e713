-- ===== src/Ws/Hub/Deliveries.antt =====
-- Messages of internal/services/ws/hub.go change nothing of a client but its channel.
use go_backend_core.Prelude.{
  ℕ, ◌≡◌, refl, ap, sym, ◌∙◌, Bool, true, false, inl, inr, List, [], ◌∷◌, String, if◌then◌else◌,
  Bool-cases,
}
use go_backend_core.Prelude.Equality.{◌==◌, nat_eq, string_eq}
use go_backend_core.Prelude.Dict.{Dict, read}
use go_backend_core.Ws.Hub.{
  Client, Hub, update, deliver, has_space, deliver_members, deliver_all, deliver_user, is_excluded,
}
use go_backend_core.Ws.Hub.Membership.{IsConsistent}

abbrev pub SameClients : (ℕ → Client) → (ℕ → Client) → Type 0
SameClients before after =
    (q : ℕ) → ((after q).id ≡ (before q).id) × ((after q).rooms ≡ (before q).rooms)

pub update_SameClients :
    (p : ℕ) (c : Client) (objects : ℕ → Client)
    → c.id ≡ (objects p).id
    → c.rooms ≡ (objects p).rooms
    → SameClients objects (update p c objects)
update_SameClients p c objects h k q = elim (Bool-cases (q == p)) [
  | inr apart ↦ rw apart (refl, refl)
  | inl same ↦
      let e : q ≡ p = (nat_eq.equals_iff q p).0 same in
      rw same (h ∙ ap (λ x. (objects x).id) (sym e), k ∙ ap (λ x. (objects x).rooms) (sym e))
]

pub deliver-SameClients :
    (payload : List ℕ) (p : ℕ) (objects : ℕ → Client)
    → SameClients objects (deliver payload p objects)
deliver-SameClients payload p objects q = elim (Bool-cases (has_space (objects p))) [
  | inr full ↦ rw full (refl, refl)
  | inl space ↦ rw space (update_SameClients p _ objects refl refl q)
]

then_SameClients : (a b c : ℕ → Client) → SameClients a b → SameClients b c → SameClients a c
then_SameClients a b c h k q = (((k q).0 ∙ (h q).0), ((k q).1 ∙ (h q).1))

unless_SameClients :
    (test : Bool) (payload : List ℕ) (p : ℕ) (objects : ℕ → Client)
    → SameClients objects (if test then objects else deliver payload p objects)
unless_SameClients true payload p objects q = (refl, refl)
unless_SameClients false payload p objects q = deliver-SameClients payload p objects q

when_SameClients :
    (test : Bool) (payload : List ℕ) (p : ℕ) (objects : ℕ → Client)
    → SameClients objects (if test then deliver payload p objects else objects)
when_SameClients true payload p objects q = deliver-SameClients payload p objects q
when_SameClients false payload p objects q = (refl, refl)

pub deliver_members-SameClients :
    (payload : List ℕ) (exclude : List String) (members : Dict String ℕ) (objects : ℕ → Client)
    → SameClients objects (deliver_members payload exclude members objects)
unfolding deliver_members
deliver_members-SameClients payload exclude [] objects = λ q. (refl, refl)
deliver_members-SameClients payload exclude ((key, p) ∷ members) objects =
    let next : ℕ → Client =
      if is_excluded exclude (objects p).id then objects else deliver payload p objects in
    then_SameClients objects next (deliver_members payload exclude members next)
      (unless_SameClients (is_excluded exclude (objects p).id) payload p objects)
      (deliver_members-SameClients payload exclude members next)

pub deliver_all-SameClients :
    (payload : List ℕ) (clients : Dict String ℕ) (objects : ℕ → Client)
    → SameClients objects (deliver_all payload clients objects)
unfolding deliver_all
deliver_all-SameClients payload [] objects = λ q. (refl, refl)
deliver_all-SameClients payload ((key, p) ∷ clients) objects =
    let next : ℕ → Client = deliver payload p objects in
    then_SameClients objects next (deliver_all payload clients next)
      (deliver-SameClients payload p objects) (deliver_all-SameClients payload clients next)

pub deliver_user-SameClients :
    (user : String) (payload : List ℕ) (clients : Dict String ℕ) (objects : ℕ → Client)
    (sent : Bool)
    → SameClients objects (deliver_user user payload clients objects sent).0
unfolding deliver_user
deliver_user-SameClients user payload [] objects sent = λ q. (refl, refl)
deliver_user-SameClients user payload ((key, p) ∷ clients) objects sent =
    let is_theirs = (objects p).user_id == user in
    let next : ℕ → Client = if is_theirs then deliver payload p objects else objects in
    let so_far : Bool =
      if is_theirs then (if has_space (objects p) then true else sent) else sent in
    then_SameClients objects next (deliver_user user payload clients next so_far).0
      (when_SameClients is_theirs payload p objects)
      (deliver_user-SameClients user payload clients next so_far)

pub objects-IsConsistent :
    {Handler : Type 0} (h : Hub Handler) (objects : ℕ → Client)
    → SameClients h.objects objects
    → IsConsistent h
    → IsConsistent (record h { objects = objects })
objects-IsConsistent h objects same c = record {
  known = λ id q found. (same q).0 ∙ c.known id q found;
  joined = λ room id q there.
      let (named, knows) = c.joined room id q there in
      ((same q).0 ∙ named, ap (read room) (same q).1 ∙ knows);
  once = c.once;
  members_once = c.members_once;
}
