-- ===== src/Discovery/Registry/Channels.antt =====
-- The channels of the watchers of internal/services/discovery/discovery.go: what a send leaves alone, and that no
-- send meets a closed one.
use go_backend_core.Prelude.{
  ℕ, ◌<◌, ◌≡◌, refl, ap, sym, ◌∙◌, inl, inr, false, Option, none, some, List, [], ◌∷◌, String, In,
  Bool-cases, ltb, length,
}
use go_backend_core.Prelude.Equality.{◌==◌, nat_eq, string_eq}
use go_backend_core.Prelude.Dict.{Dict, read, delete}
use go_backend_core.Prelude.Search.{Distinct}
use go_backend_core.Discovery.Registry.{
  Instance, Channel, MemoryRegistry, snapshot, send, send_all, notify_watchers, or_none, put,
  deregister_found, renew_found,
}

-- The channels that watch a service.
abbrev pub watching : String → MemoryRegistry → List ℕ
watching name r = or_none (read name r.watchers)

pub record IsOpen (name : String) (ch : ℕ) (r : MemoryRegistry) : Type 0 where
  pub open_ : (r.channels ch).closed ≡ false
  pub named : (r.channels ch).name ≡ name
  pub made : ch < r.next

pub record IsSound (r : MemoryRegistry) : Type 0 where
  pub opened : (name : String) (ch : ℕ) → In ch (watching name r) → IsOpen name ch r
  pub once : (name : String) → Distinct (λ (n : ℕ). n) (watching name r)
  pub calm : r.panicked ≡ false

-- What sending leaves alone.
pub record SameChannels (r r' : MemoryRegistry) : Type 0 where
  same_watchers : r'.watchers ≡ r.watchers
  same_next : r'.next ≡ r.next
  same_panicked : r'.panicked ≡ r.panicked
  same_closed : (ch : ℕ) → (r'.channels ch).closed ≡ (r.channels ch).closed
  same_name : (ch : ℕ) → (r'.channels ch).name ≡ (r.channels ch).name

SameChannels-trans :
    (a b c : MemoryRegistry) → SameChannels a b → SameChannels b c → SameChannels a c
SameChannels-trans a b c s t = record {
  same_watchers = t.same_watchers ∙ s.same_watchers;
  same_next = t.same_next ∙ s.same_next;
  same_panicked = t.same_panicked ∙ s.same_panicked;
  same_closed = λ ch. t.same_closed ch ∙ s.same_closed ch;
  same_name = λ ch. t.same_name ch ∙ s.same_name ch;
}

same-IsSound : (r r' : MemoryRegistry) → SameChannels r r' → IsSound r → IsSound r'
same-IsSound r r' s v = record {
  opened = λ name ch there.
      let o = v.opened name ch (rw (← s.same_watchers) there) in
      record {
        open_ = s.same_closed ch ∙ o.open_;
        named = s.same_name ch ∙ o.named;
        made = rw s.same_next o.made;
      };
  once = λ name. rw s.same_watchers (v.once name);
  calm = s.same_panicked ∙ v.calm;
}

put_held :
    {A : Type 0} (f : Channel → A) (ch other : ℕ) (c : Channel) (channels : ℕ → Channel)
    → f c ≡ f (channels ch)
    → f (put ch c channels other) ≡ f (channels other)
put_held f ch other c channels same = elim (Bool-cases (other == ch)) [
  | inl hit ↦
      let is : other ≡ ch = (nat_eq.equals_iff other ch).0 hit in
      rw hit (same ∙ ap (λ x. f (channels x)) (sym is))
  | inr miss ↦ rw miss refl
]

send-SameChannels :
    (sent : List Instance) (ch : ℕ) (r : MemoryRegistry)
    → (r.channels ch).closed ≡ false
    → SameChannels r (send sent ch r)
send-SameChannels sent ch r opened = elim (Bool-cases (ltb (length (r.channels ch).held) 16)) [
  | inl room ↦
      rw (opened, room)
        (record {
          same_watchers = refl;
          same_next = refl;
          same_panicked = refl;
          same_closed = λ other. put_held (λ c. c.closed) ch other _ r.channels (sym opened);
          same_name = λ other. put_held (λ c. c.name) ch other _ r.channels refl;
        })
  | inr full ↦
      rw (opened, full)
        (record {
          same_watchers = refl;
          same_next = refl;
          same_panicked = refl;
          same_closed = λ other. refl;
          same_name = λ other. refl;
        })
]

send_all-SameChannels :
    (sent : List Instance) (chs : List ℕ) (r : MemoryRegistry)
    → ((ch : ℕ) → In ch chs → (r.channels ch).closed ≡ false)
    → SameChannels r (send_all sent chs r)
unfolding send_all
send_all-SameChannels sent [] r opened = record {
  same_watchers = refl;
  same_next = refl;
  same_panicked = refl;
  same_closed = λ other. refl;
  same_name = λ other. refl;
}
send_all-SameChannels sent (ch ∷ chs) r opened =
    let s = send-SameChannels sent ch r (opened ch (inl refl)) in
    SameChannels-trans r (send sent ch r) _ s (
      send_all-SameChannels sent chs (send sent ch r)
        (λ x there. s.same_closed x ∙ opened x (inr there)))

pub notify-IsSound :
    (name : String) (r : MemoryRegistry) → IsSound r → IsSound (notify_watchers name r)
unfolding notify_watchers
notify-IsSound name r v =
    same-IsSound r _
      (send_all-SameChannels (snapshot name r) (watching name r) r
        (λ ch there. (v.opened name ch there).open_))
      v

-- The instances play no part.
pub moved-IsSound :
    (m : Dict String Instance) (r : MemoryRegistry)
    → IsSound r
    → IsSound (record r { instances = m })
moved-IsSound m r v = record {
  opened = λ name ch there.
      let o = v.opened name ch there in record { open_ = o.open_; named = o.named; made = o.made };
  once = v.once;
  calm = v.calm;
}

pub deregister_found-IsSound :
    (id : String) (r : MemoryRegistry) (found : Option Instance)
    → IsSound r
    → IsSound (deregister_found id r found).0
deregister_found-IsSound id r none v = v
deregister_found-IsSound id r (some inst) v =
    notify-IsSound inst.name _ (moved-IsSound (delete id r.instances) r v)

pub renew_found-IsSound :
    (id : String) (now : ℕ) (r : MemoryRegistry) (found : Option Instance)
    → IsSound r
    → IsSound (renew_found id now r found).0
renew_found-IsSound id now r none v = v
renew_found-IsSound id now r (some inst) v = moved-IsSound _ r v
