-- ===== src/Cache/Level/Bounded.antt =====
-- The local level of internal/services/cache/cache.go stays within its size.
use go_backend_core.Prelude.{
  ℕ, suc, ◌+◌, ◌≤◌, ◌<◌, ◌≡◌, refl, ◌≢◌, ap, sym, ◌∙◌, inl, inr, Option, none, some, List, [], ◌∷◌,
  length, All, arith, Bool-cases, Option-cases, subst, subst,
}
use go_backend_core.Prelude.Int.{ℤ, pos, pos_part, negsuc, half64, ◌≤ℤ◌, ◌<ℤ◌}
use go_backend_core.Prelude.Equality.{string_eq}
use go_backend_core.Prelude.Dict.{read, length-delete-le}
use go_backend_core.Cache.Codecs.{Codec, Registry}
use go_backend_core.Cache.Level.{
  MultiLevelCache, is_expired, l1_set, l1_get, l1_del, l1_clear, evict_tick, Options, new,
  empty_cache, with_defaults, if_positive, Call, gets, dels, sets, clears, ticks, step, run,
}
use go_backend_core.Cache.Level.Invariant.{
  IsValid, delete-AreValid, sweep-AreValid, length-sweep-le, l1_set-IsValid, l1_get-IsValid,
}

-- A written key is not the empty one.
abbrev pub IsNamed : ℕ × Call → Type 0
IsNamed (now, gets key) = Unit
IsNamed (now, dels key) = Unit
IsNamed (now, sets key bytes ttl) = key ≢ ""
IsNamed (now, clears) = Unit
IsNamed (now, ticks) = Unit

size_is_positive :
    (given : ℤ)
    → (if_positive given (pos 10000) ≡ pos (pos_part (if_positive given (pos 10000))))
      × (1 ≤ pos_part (if_positive given (pos 10000)))
size_is_positive (pos n) = ground arith
size_is_positive (negsuc n) = ground arith

module _ {V : Type 0} where
  step-opts : (now : ℕ) (call : Call) (c : MultiLevelCache V) → (step now call c).0.opts ≡ c.opts
  unfolding step l1_get l1_set l1_del l1_clear evict_tick
  step-opts now (gets key) c = elim (Option-cases (read key c.l1)) [
    | inl missing ↦ rw missing refl
    | inr (e, found) ↦ elim (Bool-cases (is_expired now e)) [
      | inl gone ↦ rw (found, gone) refl
      | inr live ↦ rw (found, live) refl
    ]
  ]
  step-opts now (dels key) c = refl
  step-opts now (sets key bytes ttl) c = refl
  step-opts now clears c = refl
  step-opts now ticks c = refl

  step-IsValid :
      (count now : ℕ) (call : Call) (c : MultiLevelCache V)
      → suc count < half64
      → IsNamed (now, call)
      → IsValid count c
      → (n : ℕ) × (n ≤ suc count) × IsValid n (step now call c).0
  unfolding step l1_del l1_clear evict_tick
  step-IsValid count now (gets key) c small h v = l1_get-IsValid count c key now small v
  step-IsValid count now (dels key) c small h v = (
    count,
    omega arith,
    record {
      capacity = v.capacity;
      positive = v.positive;
      limit = v.limit;
      fits = omega (arith, v.fits, length-delete-le key c.l1);
      counter = v.counter;
      entries = delete-AreValid count key c.l1 v.entries;
    },
  )
  step-IsValid count now (sets key bytes ttl) c small h v =
      (suc count, omega arith, l1_set-IsValid count c key bytes ttl now small h v)
  step-IsValid count now clears c small h v = (
    count,
    omega arith,
    record {
      capacity = v.capacity;
      positive = v.positive;
      limit = v.limit;
      fits = omega arith;
      counter = v.counter;
      entries = record { once = tt; named = tt; ticked = tt };
    },
  )
  step-IsValid count now ticks c small h v = (
    count,
    omega arith,
    record {
      capacity = v.capacity;
      positive = v.positive;
      limit = v.limit;
      fits = omega (arith, v.fits, length-sweep-le now c.l1);
      counter = v.counter;
      entries = sweep-AreValid count now c.l1 v.entries;
    },
  )

  run-IsValid :
      (count : ℕ) (cs : List (ℕ × Call)) (c : MultiLevelCache V)
      → count + length cs < half64
      → All IsNamed cs
      → IsValid count c
      → (n : ℕ) × IsValid n (run cs c).0 × ((run cs c).0.opts ≡ c.opts)
  unfolding run
  run-IsValid count [] c small h v = (count, v, refl)
  run-IsValid count ((now, call) ∷ cs) c small (h, hs) v =
      let (n, low, v') = step-IsValid count now call c (omega arith) h v in
      let (m, last, same) = run-IsValid n cs (step now call c).0 (omega arith) hs v' in
      (m, last, same ∙ step-opts now call c)

  empty_cache-IsValid :
      (opts : Options) (codec : Option (Codec V)) (c : MultiLevelCache V)
      → empty_cache (with_defaults opts) codec ≡ some c
      → IsValid 0 c
  empty_cache-IsValid opts none c h = cc
  empty_cache-IsValid opts (some codec) c h =
      let (limit, positive) = size_is_positive opts.l1_max_size in
      let same : record {
        opts = with_defaults opts;
        l1 = [];
        codec = codec;
        hits = pos 0;
        misses = pos 0;
        clock = pos 0;
      }
          ≡ c =
        cc in
      subst (IsValid 0) same (record {
        capacity = pos_part (with_defaults opts).l1_max_size;
        positive = positive;
        limit = limit;
        fits = omega arith;
        counter = refl;
        entries = record { once = tt; named = tt; ticked = tt };
      })

  -- However a new cache is used, its local level never holds more entries than its limit, which is
  -- positive: if no empty key is written, and fewer than 2^63 calls are made.
  pub run_l1-IsBounded :
      (r : Registry V) (opts : Options) (c : MultiLevelCache V) (cs : List (ℕ × Call))
      → new r opts ≡ some c
      → All IsNamed cs
      → length cs < half64
      → (pos 0 <ℤ c.opts.l1_max_size) × (pos (length (run cs c).0.l1) ≤ℤ c.opts.l1_max_size)
  unfolding new
  run_l1-IsBounded r opts c cs made named small =
      let v = empty_cache-IsValid opts _ c made in
      let (n, last, same) = run-IsValid 0 cs c (omega arith) named v in
      let limit : c.opts.l1_max_size ≡ pos last.capacity =
        ap (λ (o : Options). o.l1_max_size) (sym same) ∙ last.limit in
      (ground (arith, last.positive, limit), ground (arith, last.fits, limit))
