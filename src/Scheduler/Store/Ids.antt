-- ===== src/Scheduler/Store/Ids.antt =====
-- The ids of the tasks in the store of internal/services/scheduler/store.go: what each operation
-- does to them.
use go_backend_core.Prelude.{
  ℕ, ◌+◌, ◌%◌, ◌^◌, ◌≤◌, ◌<◌, ◌≡◌, refl, ap, ◌≢◌, ◌⊎◌, inl, inr, Bool, Option, none, some, List, [],
  ◌∷◌, ◌++◌, map, All, In, Bool-cases, subst, arith,
}
use go_backend_core.Prelude.Equality.{nat_eq}
use go_backend_core.Prelude.Result.{Result, ok, or_error_sound}
use go_backend_core.Prelude.Search.{find_first, find_first_sound, map-modify_first}
use go_backend_core.Scheduler.Store.{
  Task, TaskError, InMemoryStore, has_id, has_name, created, merged, create_task, create_free,
  update_task, update_found, delete_task, delete_found, remove_first, get_task,
}

abbrev pub id_of : Task → ℕ
id_of t = t.id

abbrev pub ids : InMemoryStore → List ℕ
ids s = map id_of s.tasks

-- No task has an id that is not given yet.
abbrev pub AreGiven : InMemoryStore → Type 0
AreGiven s = All (λ n. n ≤ s.task_seq) (ids s)

pub given : (n m : ℕ) (ns : List ℕ) → All (λ x. x ≤ m) ns → In n ns → n ≤ m
given n m [] h there = elim there [ ]
given n m (x ∷ ns) (h, hs) (inl e) = omega arith
given n m (x ∷ ns) (h, hs) (inr there) = given n m ns hs there

In-append_left :
    (n : ℕ) (ts : List Task) (t : Task) → In n (map id_of ts) → In n (map id_of (ts ++ t ∷ []))
In-append_left n [] t there = elim there [ ]
In-append_left n (x ∷ ts) t (inl e) = inl e
In-append_left n (x ∷ ts) t (inr there) = inr (In-append_left n ts t there)

In-append_right : (ts : List Task) (t : Task) → In t.id (map id_of (ts ++ t ∷ []))
In-append_right [] t = inl refl
In-append_right (x ∷ ts) t = inr (In-append_right ts t)

All-append_id :
    (n m : ℕ) (ts : List Task) (t : Task)
    → n ≤ m
    → t.id ≤ m
    → All (λ x. x ≤ n) (map id_of ts)
    → All (λ x. x ≤ m) (map id_of (ts ++ t ∷ []))
All-append_id n m [] t le h hs = (h, tt)
All-append_id n m (x ∷ ts) t le h (k, ks) = (omega arith, All-append_id n m ts t le h ks)

In-id : (t : Task) (ts : List Task) → In t ts → In t.id (map id_of ts)
In-id t [] there = elim there [ ]
In-id t (x ∷ ts) (inl e) = inl (ap id_of e)
In-id t (x ∷ ts) (inr there) = inr (In-id t ts there)

-- What a lookup by id finds has the id, and is in the store.
pub get_task_sound :
    (id : ℕ) (s : InMemoryStore) (t : Task) → get_task id s ≡ ok t → (t.id ≡ id) × In t.id (ids s)
unfolding get_task
get_task_sound id s t h =
    let found : find_first (has_id id) s.tasks ≡ some t = or_error_sound _ _ t h in
    let (named, there) = find_first_sound (has_id id) s.tasks t found in
    ((nat_eq.equals_iff t.id id).0 named, In-id t s.tasks there)

-- A task that is updated keeps its id, and so does every other.
pub record Updates (t : Task) (s : InMemoryStore) (r : InMemoryStore × Result TaskError Task)
    : Type 0 where
  pub same : ids r.0 ≡ ids s
  pub counts : r.0.task_seq ≡ s.task_seq
  pub names : (t' : Task) → r.1 ≡ ok t' → (t'.id ≡ t.id) × In t'.id (ids s)

update_found-Updates :
    (t : Task) (now : ℕ) (s : InMemoryStore) (found : Option Task)
    → find_first (has_id t.id) s.tasks ≡ found
    → Updates t s (update_found t now s found)
update_found-Updates t now s none e = record { same = refl; counts = refl; names = λ t' h. cc }
update_found-Updates t now s (some old) e =
    let (named, there) = find_first_sound (has_id t.id) s.tasks old e in
    record {
      same = map-modify_first id_of (has_id t.id) (merged t now) (λ x. refl) s.tasks;
      counts = refl;
      names = λ t' h.
          let is : merged t now old ≡ t' = cc in
          subst (λ x. (x.id ≡ t.id) × In x.id (ids s)) is
            ((nat_eq.equals_iff old.id t.id).0 named, In-id old s.tasks there);
    }

pub update_task-Updates :
    (t : Task) (now : ℕ) (s : InMemoryStore) → Updates t s (update_task t now s)
unfolding update_task
update_task-Updates t now s = update_found-Updates t now s (find_first (has_id t.id) s.tasks) refl

-- A task that is created takes the next id, and every other keeps its own.
pub record Creates (s : InMemoryStore) (r : InMemoryStore × Result TaskError Task) : Type 0 where
  pub given : AreGiven r.0
  pub keeps : (n : ℕ) → In n (ids s) → In n (ids r.0)
  pub names : (t : Task) → r.1 ≡ ok t → (t.id ≡ s.task_seq + 1) × In t.id (ids r.0)
  pub counts : r.0.task_seq ≤ s.task_seq + 1

create_free-Creates :
    (t : Task) (now : ℕ) (s : InMemoryStore) (existing : Option Task)
    → s.task_seq + 1 < 2 ^ 64
    → AreGiven s
    → Creates s (create_free t now s existing)
create_free-Creates t now s (some old) small h = record {
  given = h;
  keeps = λ n there. there;
  names = λ t' e. cc;
  counts = omega arith;
}
create_free-Creates t now s none small h =
    let next : (s.task_seq + 1) % 2 ^ 64 ≡ s.task_seq + 1 = omega arith in
    let made = created t ((s.task_seq + 1) % 2 ^ 64) now in
    record {
      given = All-append_id s.task_seq _ s.tasks made (omega arith) (omega arith) h;
      keeps = λ n there. In-append_left n s.tasks made there;
      names = λ t' e.
          let same : made ≡ t' = cc in
          subst (λ x. (x.id ≡ s.task_seq + 1) × In x.id (map id_of (s.tasks ++ made ∷ []))) same
            (next, In-append_right s.tasks made);
      counts = omega arith;
    }

pub create_task-Creates :
    (t : Task) (now : ℕ) (s : InMemoryStore)
    → s.task_seq + 1 < 2 ^ 64
    → AreGiven s
    → Creates s (create_task t now s)
unfolding create_task
create_task-Creates t now s small h =
    create_free-Creates t now s (find_first (has_name t.name) s.tasks) small h

All-remove_first :
    (P : ℕ → Type 0) (p : Task → Bool) (ts : List Task)
    → All P (map id_of ts)
    → All P (map id_of (remove_first p ts))
unfolding remove_first
All-remove_first P p [] h = tt
All-remove_first P p (t ∷ ts) (h, hs) = elim (Bool-cases (p t)) [
  | inl hit ↦ rw hit hs
  | inr missed ↦ rw missed (h, All-remove_first P p ts hs)
]

In-remove_first :
    (n id : ℕ) (ts : List Task)
    → n ≢ id
    → In n (map id_of ts)
    → In n (map id_of (remove_first (has_id id) ts))
unfolding remove_first
In-remove_first n id [] other there = there
In-remove_first n id (t ∷ ts) other (inl e) = elim (Bool-cases (has_id id t)) [
  | inl hit ↦
      absurd (other (let same : t.id ≡ id = (nat_eq.equals_iff t.id id).0 hit in omega arith))
  | inr missed ↦ rw missed (inl e)
]
In-remove_first n id (t ∷ ts) other (inr there) = elim (Bool-cases (has_id id t)) [
  | inl hit ↦ rw hit there
  | inr missed ↦ rw missed (inr (In-remove_first n id ts other there))
]

-- A task that is deleted goes, and every other stays.
pub record Deletes (id : ℕ) (s s' : InMemoryStore) : Type 0 where
  pub given : AreGiven s'
  pub keeps : (n : ℕ) → n ≢ id → In n (ids s) → In n (ids s')
  pub counts : s'.task_seq ≡ s.task_seq

delete_found-Deletes :
    (id : ℕ) (s : InMemoryStore) (found : Option Task)
    → AreGiven s
    → Deletes id s (delete_found id s found).0
delete_found-Deletes id s none h = record {
  given = h;
  keeps = λ n other there. there;
  counts = refl;
}
delete_found-Deletes id s (some t) h = record {
  given = All-remove_first (λ n. n ≤ s.task_seq) (has_id id) s.tasks h;
  keeps = λ n other there. In-remove_first n id s.tasks other there;
  counts = refl;
}

pub delete_task-Deletes :
    (id : ℕ) (s : InMemoryStore) → AreGiven s → Deletes id s (delete_task id s).0
unfolding delete_task
delete_task-Deletes id s h = delete_found-Deletes id s (find_first (has_id id) s.tasks) h

delete_found_cases :
    (id : ℕ) (s : InMemoryStore) (found : Option Task)
    → ((delete_found id s found).0 ≡ s) ⊎ ((delete_found id s found).1 ≡ ok tt)
delete_found_cases id s none = inl refl
delete_found_cases id s (some t) = inr refl

-- A deletion that fails changes nothing.
pub delete_task_cases :
    (id : ℕ) (s : InMemoryStore) → ((delete_task id s).0 ≡ s) ⊎ ((delete_task id s).1 ≡ ok tt)
unfolding delete_task
delete_task_cases id s = delete_found_cases id s (find_first (has_id id) s.tasks)
