-- ===== src/Middleware/RateLimit/Window.antt =====
-- The limiter in memory against one that remembers every request it let through: trimming and
-- sweeping lose nothing that a later decision needs.
use native.Mathlib.Nat.{le_refl}
use go_backend_core.Prelude.{
  ℕ, ◌≤◌, ◌≡◌, refl, sym, ap, ap₂, ◌∙◌, Bool, true, false, inl, inr, List, [], ◌∷◌, ◌++◌,
  append-nil, String, arith, length, keep-append, keep-keep, if◌then◌else◌, Bool-cases,
}
use go_backend_core.Prelude.Int.{ℤ, pos, negsuc, ltb_ℤ}
use go_backend_core.Prelude.Dict.{Dict, read, write, read-write, read-delete}
use go_backend_core.Prelude.Equality.{string_eq, ◌==◌}
use go_backend_core.Middleware.RateLimit.{
  RateLimit, new_rate_limit, is_recent, valid, times_of, allow, cleanup, clean_key, clean_entries,
  store_valid, Event, request, tick, run,
}

-- Every request let through so far, oldest first.
abbrev pub Log : Type 0
Log = List (String × ℕ)

unfoldable pub accepted : String → Log → List ℕ
accepted ip [] = []
accepted ip ((who, t) ∷ log) = if who == ip then t ∷ accepted ip log else accepted ip log

-- The decision that the limiter stands for: fewer than the maximum within the window.
unfoldable pub admits : ℤ → ℤ → Log → String → ℕ → Bool
admits max window log ip now = ltb_ℤ (pos (length (valid window now (accepted ip log)))) max

unfoldable pub decide : ℤ → ℤ → Log → List (ℕ × Event) → Log × List Bool
decide max window log [] = (log, [])
decide max window log ((now, tick) ∷ es) = decide max window log es
decide max window log ((now, request ip) ∷ es) =
    let ok = admits max window log ip now in
    let (last, answers) = decide max window (if ok then log ++ (ip, now) ∷ [] else log) es in
    (last, ok ∷ answers)

-- The instants of the events do not fall.
abbrev pub Rising : ℕ → List (ℕ × Event) → Type 0
Rising from [] = Unit
Rising from ((now, e) ∷ es) = (from ≤ now) × Rising now es

pub accepted-append :
    (ip : String) (l m : Log) → accepted ip (l ++ m) ≡ accepted ip l ++ accepted ip m
unfolding accepted
accepted-append ip [] m = refl
accepted-append ip ((who, t) ∷ l) m = ground (arith, accepted-append ip l m)

pub accepted_snoc :
    (j ip : String) (log : Log) (now : ℕ)
    → accepted j (log ++ (ip, now) ∷ []) ≡ accepted j log ++ (if ip == j then now ∷ [] else [])
unfolding accepted
accepted_snoc j ip log now = accepted-append j log ((ip, now) ∷ [])

recent_before :
    (window : ℤ) (now later t : ℕ)
    → now ≤ later
    → is_recent window later t ≡ true
    → is_recent window now t ≡ true
recent_before (pos w) now later t h r = ground arith
recent_before (negsuc w) now later t h r = ground arith

-- What is recent later is recent now.
pub valid-valid :
    (window : ℤ) (now later : ℕ) (ts : List ℕ)
    → now ≤ later
    → valid window later (valid window now ts) ≡ valid window later ts
valid-valid window now later ts h =
    keep-keep (is_recent window later) (is_recent window now)
      (λ t r. recent_before window now later t h r) ts

pub valid-append :
    (window : ℤ) (now : ℕ) (l m : List ℕ)
    → valid window now (l ++ m) ≡ valid window now l ++ valid window now m
valid-append window now l m = keep-append (is_recent window now) l m

-- The stored instants and the log agree on all that a decision from `now` on can see.
abbrev Tracks : ℤ → ℕ → List ℕ → List ℕ → Type 0
Tracks window now stored logged =
    (later : ℕ) → now ≤ later → valid window later stored ≡ valid window later logged

Tracks-valid :
    (window : ℤ) (now : ℕ) (stored logged : List ℕ)
    → Tracks window now stored logged
    → Tracks window now (valid window now stored) logged
Tracks-valid window now stored logged t later h = valid-valid window now later stored h ∙ t later h

Tracks-append :
    (window : ℤ) (now : ℕ) (stored logged more : List ℕ)
    → Tracks window now stored logged
    → Tracks window now (stored ++ more) (logged ++ more)
Tracks-append window now stored logged more t later h =
    valid-append window later stored more
    ∙ ap (λ l. l ++ valid window later more) (t later h)
    ∙ sym (valid-append window later logged more)

-- A sweep leaves each key's instants, or cuts them to the recent ones.
record IsSwept (window : ℤ) (now : ℕ) (m m' : Dict String (List ℕ)) : Type 0 where
  swept :
      (ip : String) (later : ℕ)
      → now ≤ later
      → valid window later (times_of ip m') ≡ valid window later (times_of ip m)

times_of-store_valid :
    (ip j : String) (ts : List ℕ) (m : Dict String (List ℕ))
    → times_of j (store_valid ip ts m) ≡ (if ip == j then ts else times_of j m)
unfolding store_valid
times_of-store_valid ip j [] m = rw (read-delete ip j m) (ground arith)
times_of-store_valid ip j (t ∷ ts) m = rw (read-write ip j (t ∷ ts) m) (ground arith)

clean_key-IsSwept :
    (window : ℤ) (now : ℕ) (ip : String) (m : Dict String (List ℕ))
    → IsSwept window now m (clean_key window now ip m)
unfolding clean_key
clean_key-IsSwept window now ip m = record {
  swept = λ j later h. ground (
    arith,
    times_of-store_valid ip j (valid window now (times_of ip m)) m,
    valid-valid window now later (times_of ip m) h,
    string_eq.equals_iff ip j,
  );
}

clean_entries-IsSwept :
    (window : ℤ) (now : ℕ) (es m : Dict String (List ℕ))
    → IsSwept window now m (clean_entries window now es m)
unfolding clean_entries
clean_entries-IsSwept window now [] m = record { swept = λ ip later h. refl }
clean_entries-IsSwept window now ((ip, times) ∷ es) m = record {
  swept = λ j later h.
      (clean_entries-IsSwept window now es (clean_key window now ip m)).swept j later h
      ∙ (clean_key-IsSwept window now ip m).swept j later h;
}

module _ (max window : ℤ) where
  record Follows (rl : RateLimit) (log : Log) (now : ℕ) : Type 0 where
    same_max : rl.max_requests ≡ max
    same_window : rl.window ≡ window
    tracked : (ip : String) → Tracks window now (times_of ip rl.requests) (accepted ip log)

  Follows-later :
      {rl : RateLimit} {log : Log} {now later : ℕ}
      → now ≤ later
      → Follows rl log now
      → Follows rl log later
  Follows-later h f = record {
    same_max = f.same_max;
    same_window = f.same_window;
    tracked = λ ip t k. f.tracked ip t (omega arith);
  }

  -- The stored instants that are still recent, and with the new one.
  trimmed : RateLimit → String → ℕ → List ℕ → RateLimit
  trimmed rl ip now more = record rl {
    requests = write ip (valid rl.window now (times_of ip rl.requests) ++ more) rl.requests;
  }

  allow_lem :
      (rl : RateLimit) (log : Log) (ip : String) (now : ℕ)
      → Follows rl log now
      → allow rl ip now ≡ (
          if admits max window log ip now
          then (trimmed rl ip now (now ∷ []), true)
          else (trimmed rl ip now [], false))
  unfolding allow admits trimmed
  allow_lem rl log ip now f = ground (
    arith,
    f.tracked ip now (le_refl now),
    append-nil (valid rl.window now (times_of ip rl.requests)),
  )

  trimmed-Follows :
      (rl : RateLimit) (log : Log) (ip : String) (now : ℕ) (more : List ℕ)
      → Follows rl log now
      → (log' : Log)
      → ((j : String) → accepted j log' ≡ accepted j log ++ (if ip == j then more else []))
      → Follows (trimmed rl ip now more) log' now
  unfolding trimmed
  trimmed-Follows rl log ip now more f log' e = record {
    same_max = f.same_max;
    same_window = f.same_window;
    tracked = λ j later h.
        let stored = valid rl.window now (times_of ip rl.requests) ++ more in
        elim (Bool-cases (ip == j)) [
          | inl b ↦
              rw
                (
                  read-write ip j stored rl.requests,
                  e j,
                  b,
                  f.same_window,
                  ← (string_eq.equals_iff ip j).0 b,
                )
                (Tracks-append window now _ _ more (Tracks-valid window now _ _ (f.tracked ip))
                  later h)
          | inr b ↦
              rw (read-write ip j stored rl.requests, e j, b, append-nil (accepted j log))
                (f.tracked j later h)
        ];
  }

  allow-Follows :
      (rl : RateLimit) (log : Log) (ip : String) (now : ℕ)
      → Follows rl log now
      → ((allow rl ip now).1 ≡ admits max window log ip now)
        × Follows
            (allow rl ip now).0
            (if admits max window log ip now then log ++ (ip, now) ∷ [] else log)
            now
  unfolding accepted
  allow-Follows rl log ip now f = elim (Bool-cases (admits max window log ip now)) [
    | inl e ↦
        rw (allow_lem rl log ip now f, e)
          (
            refl,
            trimmed-Follows rl log ip now (now ∷ []) f (log ++ (ip, now) ∷ [])
                (λ j. accepted-append j log ((ip, now) ∷ [])),
          )
    | inr e ↦
        rw (allow_lem rl log ip now f, e)
          (
            refl,
            trimmed-Follows rl log ip now [] f log
                (λ j. ground (arith, append-nil (accepted j log))),
          )
  ]

  cleanup-Follows :
      (rl : RateLimit) (log : Log) (now : ℕ) → Follows rl log now → Follows (cleanup rl now) log now
  unfolding cleanup
  cleanup-Follows rl log now f = record {
    same_max = f.same_max;
    same_window = f.same_window;
    tracked = λ ip later h. rw f.same_window (
        (clean_entries-IsSwept window now rl.requests rl.requests).swept ip later h
        ∙ f.tracked ip later h);
  }

  run-decide :
      (rl : RateLimit) (log : Log) (from : ℕ) (es : List (ℕ × Event))
      → Follows rl log from
      → Rising from es
      → (run rl es).1 ≡ (decide max window log es).1
  unfolding run decide
  run-decide rl log from [] f r = refl
  run-decide rl log from ((now, tick) ∷ es) f (h, r) =
      run-decide (cleanup rl now) log now es (cleanup-Follows rl log now (Follows-later h f)) r
  run-decide rl log from ((now, request ip) ∷ es) f (h, r) =
      let g = Follows-later h f in
      let (answer, g') = allow-Follows rl log ip now g in
      ap₂ ◌∷◌ answer (run-decide (allow rl ip now).0 _ now es g' r)

-- From the constructor on, and with a clock that never goes back, the limiter answers every request
-- as the one that remembers everything and asks whether fewer than the maximum were let through
-- within the window, whatever ticks of the cleanup run in between.
pub run_follows_log :
    (max window : ℤ) (es : List (ℕ × Event))
    → Rising 0 es
    → (run (new_rate_limit max window) es).1 ≡ (decide max window [] es).1
unfolding new_rate_limit accepted read
run_follows_log max window es r =
    run-decide max window (new_rate_limit max window) [] 0 es
      (record { same_max = refl; same_window = refl; tracked = λ ip later h. refl }) r
