-- ===== src/Cache/Level/Invariant.antt =====
-- The local level of internal/services/cache/cache.go: the invariant
-- of its entries, and that writes and reads keep it.
use go_backend_core.Prelude.{
  ℕ, suc, ◌+◌, ◌-◌, ◌≤◌, ◌<◌, ◌≡◌, ◌≢◌, ap, ◌∙◌, false, inl, inr, [], ◌∷◌, String, length, All,
  arith, if◌then◌else◌, Bool-cases, Option-cases, leb,
}
use go_backend_core.Prelude.Int.{
  ℤ, pos, negsuc, half64, ◌+ℤ◌, ◌≤ℤ◌, ◌<ℤ◌, leb_ℤ, wrap64, wrap64_pos,
}
use go_backend_core.Prelude.Equality.{string_eq}
use go_backend_core.Prelude.Dict.{Dict, read, write, delete, length-write-le, length-delete-le}
use go_backend_core.Prelude.Entries.{
  IsMap, All-read, All-write, All-delete, write-IsMap, delete-IsMap, length-delete-lt, length-write,
}
use go_backend_core.Cache.Codecs.{Bytes}
use go_backend_core.Cache.Level.{
  L1Entry, MultiLevelCache, greatest64, evict_one, sweep, is_expired, l1_set, l1_get, new,
}
use go_backend_core.Cache.Level.Eviction.{evict_one_lem}

-- The entries of the local level, at a reading of its counter.
pub record AreValid (count : ℕ) (m : Dict String L1Entry) : Type 0 where
  pub once : IsMap m
  pub named : All (λ (e : String × L1Entry). e.0 ≢ "") m
  pub ticked : All (λ (e : String × L1Entry). e.1.last_hit ≤ℤ pos count) m

pub early :
    (count : ℕ) (m : Dict String L1Entry)
    → suc count < half64
    → All (λ (e : String × L1Entry). e.1.last_hit ≤ℤ pos count) m
    → All (λ (e : String × L1Entry). e.1.last_hit <ℤ greatest64) m
early count [] h t = tt
early count (e ∷ m) h (t, ts) = (omega arith, early count m h ts)

later :
    (count : ℕ) (m : Dict String L1Entry)
    → All (λ (e : String × L1Entry). e.1.last_hit ≤ℤ pos count) m
    → All (λ (e : String × L1Entry). e.1.last_hit ≤ℤ pos (suc count)) m
later count [] t = tt
later count (e ∷ m) (t, ts) = (omega arith, later count m ts)

pub delete-AreValid :
    (count : ℕ) (key : String) (m : Dict String L1Entry)
    → AreValid count m
    → AreValid count (delete key m)
delete-AreValid count key m v = record {
  once = delete-IsMap key m v.once;
  named = All-delete _ key m v.named;
  ticked = All-delete _ key m v.ticked;
}

write-AreValid :
    (count : ℕ) (key : String) (e : L1Entry) (m : Dict String L1Entry)
    → key ≢ ""
    → e.last_hit ≡ pos (suc count)
    → AreValid count m
    → AreValid (suc count) (write key e m)
write-AreValid count key e m full tick v = record {
  once = write-IsMap key e m v.once;
  named = All-write (λ (y : String × L1Entry). y.0 ≢ "") key e m full v.named;
  ticked =
      All-write (λ (y : String × L1Entry). y.1.last_hit ≤ℤ pos (suc count)) key e m
        (ground (arith, tick)) (later count m v.ticked);
}

All-sweep :
    (P : String × L1Entry → Type 0) (now : ℕ) (m : Dict String L1Entry)
    → All P m
    → All P (sweep now m)
unfolding sweep
All-sweep P now [] h = tt
All-sweep P now ((k, e) ∷ m) (p, h) = elim (Bool-cases (is_expired now e)) [
  | inl gone ↦ rw gone (All-sweep P now m h)
  | inr stays ↦ rw stays (p, All-sweep P now m h)
]

pub sweep-IsMap : (now : ℕ) (m : Dict String L1Entry) → IsMap m → IsMap (sweep now m)
unfolding sweep
sweep-IsMap now [] h = tt
sweep-IsMap now ((k, e) ∷ m) (new, h) = elim (Bool-cases (is_expired now e)) [
  | inl gone ↦ rw gone (sweep-IsMap now m h)
  | inr stays ↦ rw stays (All-sweep _ now m new, sweep-IsMap now m h)
]

pub length-sweep-le : (now : ℕ) (m : Dict String L1Entry) → length (sweep now m) ≤ length m
unfolding sweep
length-sweep-le now [] = omega arith
length-sweep-le now ((k, e) ∷ m) = ground (arith, length-sweep-le now m)

pub sweep-AreValid :
    (count now : ℕ) (m : Dict String L1Entry) → AreValid count m → AreValid count (sweep now m)
sweep-AreValid count now m v = record {
  once = sweep-IsMap now m v.once;
  named = All-sweep _ now m v.named;
  ticked = All-sweep _ now m v.ticked;
}

-- The map that a write finds: one entry is given up first if the limit is reached.
abbrev pub room : ℤ → Dict String L1Entry → Dict String L1Entry
room limit m = if leb_ℤ limit (pos (length m)) then evict_one m else m

pub room-AreValid :
    (count limit : ℕ) (m : Dict String L1Entry)
    → suc count < half64
    → 1 ≤ limit
    → length m ≤ limit
    → AreValid count m
    → AreValid count (room (pos limit) m) × (length (room (pos limit) m) < limit)
room-AreValid count limit [] small positive fits v =
    let test : leb_ℤ (pos limit) (pos 0) ≡ false = ground arith in rw test (v, positive)
room-AreValid count limit ((k, x) ∷ rest) small positive fits v =
    elim (Bool-cases (leb_ℤ (pos limit) (pos (length ((k, x) ∷ rest))))) [
      | inl full ↦
          let (key, e, there, evicted, least) =
            evict_one_lem k x rest v.named (early count ((k, x) ∷ rest) small v.ticked) in
          rw (full, evicted)
            (
              delete-AreValid count key ((k, x) ∷ rest) v,
              omega (arith, length-delete-lt key e ((k, x) ∷ rest) there),
            )
      | inr space ↦ rw space (v, ground arith)
    ]

pub record IsValid {V : Type 0} (count : ℕ) (c : MultiLevelCache V) : Type 0 where
  pub capacity : ℕ
  pub positive : 1 ≤ capacity
  pub limit : c.opts.l1_max_size ≡ pos capacity
  pub fits : length c.l1 ≤ capacity
  pub counter : c.clock ≡ pos count
  pub entries : AreValid count c.l1

pub tick_lem : (count : ℕ) → suc count < half64 → wrap64 (pos count +ℤ pos 1) ≡ pos (suc count)
unfolding ◌+ℤ◌
tick_lem count h =
    let sum : (if leb 0 (count + 1) then pos (count + 1 - 0) else negsuc (0 - (count + 1) - 1))
        ≡ pos (suc count) =
      ground arith in
    ap wrap64 sum ∙ wrap64_pos (suc count) h

module _ {V : Type 0} where
  pub l1_set-IsValid :
      (count : ℕ) (c : MultiLevelCache V) (key : String) (bytes : Bytes) (ttl : ℤ) (now : ℕ)
      → suc count < half64
      → key ≢ ""
      → IsValid count c
      → IsValid (suc count) (l1_set key bytes ttl now c)
  unfolding l1_set
  l1_set-IsValid count c key bytes ttl now small named v =
      let (there, space) = room-AreValid count v.capacity c.l1 small v.positive v.fits v.entries in
      let limited : length (room c.opts.l1_max_size c.l1) < v.capacity = rw v.limit space in
      let kept : AreValid count (room c.opts.l1_max_size c.l1) = rw v.limit there in
      let tick : wrap64 (c.clock +ℤ pos 1) ≡ pos (suc count) =
        rw v.counter (tick_lem count small) in
      record {
        capacity = v.capacity;
        positive = v.positive;
        limit = v.limit;
        fits = omega (arith, limited, length-write-le key _ (room c.opts.l1_max_size c.l1));
        counter = tick;
        entries = write-AreValid count key _ (room c.opts.l1_max_size c.l1) named tick kept;
      }

  -- Reading counts one tick or none.
  pub l1_get-IsValid :
      (count : ℕ) (c : MultiLevelCache V) (key : String) (now : ℕ)
      → suc count < half64
      → IsValid count c
      → (n : ℕ) × (n ≤ suc count) × IsValid n (l1_get key now c).0
  unfolding l1_get
  l1_get-IsValid count c key now small v = elim (Option-cases (read key c.l1)) [
    | inl missing ↦ (count, omega arith, rw missing v)
    | inr (e, found) ↦ elim (Bool-cases (is_expired now e)) [
      | inl gone ↦ (
        count,
        omega arith,
        rw (found, gone)
            (record {
              capacity = v.capacity;
              positive = v.positive;
              limit = v.limit;
              fits = omega (arith, v.fits, length-delete-le key c.l1);
              counter = v.counter;
              entries = delete-AreValid count key c.l1 v.entries;
            }),
      )
      | inr live ↦
          let named =
            All-read (λ (y : String × L1Entry). y.0 ≢ "") key e c.l1 v.entries.named found in
          let tick : wrap64 (c.clock +ℤ pos 1) ≡ pos (suc count) =
            rw v.counter (tick_lem count small) in
          (
            suc count,
            omega arith,
            rw (found, live)
                (record {
                  capacity = v.capacity;
                  positive = v.positive;
                  limit = v.limit;
                  fits = omega (arith, v.fits, length-write key _ e c.l1 found);
                  counter = tick;
                  entries = write-AreValid count key _ c.l1 named tick v.entries;
                }),
          )
    ]
  ]
