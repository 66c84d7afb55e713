-- ===== src/EventBus/Local/Tests.antt =====
-- The local bus at concrete topics; handlers count.
use go_backend_core.Prelude.{ℕ, suc, ◌≡◌, refl, none, some, ◌⊎◌, true, ◌↔◌, arith, In}
use go_backend_core.EventBus.DeadLetter.{Event}
use go_backend_core.EventBus.Local.{
  new_local, subscribe, unsubscribe, receivers, match_topic, publish, call_all,
}
use go_backend_core.EventBus.Local.Topics.{Covers, match_topic_iff}
use go_backend_core.EventBus.Local.Live.{subscribe-receivers, subscribe-unsubscribe}
use go_backend_core.Prelude.Dict.{read, write}

match_topic_iff_example :
    (match_topic "user.*" "user.created" ≡ true) ↔ Covers "user.*" "user.created"
match_topic_iff_example = match_topic_iff "user.*" "user.created"

subscribe-unsubscribe_example :
    (let (b', sub) = subscribe {Handler = ℕ} "user.*" 7 new_local in
      ((unsubscribe sub b').1 ≡ some tt)
      × (receivers "user.created" (unsubscribe sub b').0.subs
          ≡ receivers "user.created" (new_local {Handler = ℕ}).subs))
unfolding read
subscribe-unsubscribe_example =
    subscribe-unsubscribe "user.created" "user.*" 7 new_local (omega arith) tt

subscribe-receivers_example :
    (let (b', sub) = subscribe {Handler = ℕ} "user.*" 7 new_local in
      In (record { id = 1; topic = "user.*"; handler = 7 }) (receivers "user.created" b'.subs) ↔ (
        In
          (record { id = 1; topic = "user.*"; handler = 7 })
          (receivers "user.created" (new_local {Handler = ℕ}).subs)
        ⊎ ((record { id = 1; topic = "user.*"; handler = 7 } ≡ sub)
            × (match_topic "user.*" "user.created" ≡ true))))
subscribe-receivers_example =
    subscribe-receivers "user.created" "user.*" 7 (record { id = 1; topic = "user.*"; handler = 7 })
      new_local

abbrev created : Event ℕ
created = record { id = "1"; topic = ""; source = "test"; timestamp = 0; payload = 0 }

publish_test :
    publish "user.created" created 5
      (subscribe "user.*"
        (λ e n. (suc n, none))
        (subscribe "order.*" (λ e n. (n, some "no")) new_local).0).0
      3
    ≡ (4, none)
unfolding publish call_all receivers subscribe match_topic read write
publish_test = refl
