-- ===== src/Cache/Level/Writes.antt =====
-- What a write to the local level of internal/services/cache/cache.go leaves, and what it costs.
use go_backend_core.Prelude.{
  ℕ, suc, ◌≤◌, ◌<◌, ◌≡◌, refl, ap, false, inl, inr, ◌⊎◌, some, [], ◌∷◌, String, length, arith,
  Bool-cases,
}
use go_backend_core.Prelude.Int.{ℤ, pos, half64, ◌+ℤ◌, ◌≤ℤ◌, ◌<ℤ◌, leb_ℤ, ltb_ℤ, wrap64}
use go_backend_core.Prelude.Equality.{string_eq}
use go_backend_core.Prelude.Dict.{Dict, read, write, delete, read-write_self}
use go_backend_core.Prelude.Entries.{All-read, read-In}
use go_backend_core.Cache.Codecs.{Bytes}
use go_backend_core.Cache.Level.{L1Entry, MultiLevelCache, l1_set, l1_get}
use go_backend_core.Cache.Level.Eviction.{evict_one_lem}
use go_backend_core.Cache.Level.Invariant.{AreValid, IsValid, room, early}

-- The key has an entry that was hit least recently of all.
abbrev pub IsVictim : String → Dict String L1Entry → Type 0
IsVictim key m =
    (e : L1Entry) × (read key m ≡ some e)
    × ((k : String) (f : L1Entry) → read k m ≡ some f → e.last_hit ≤ℤ f.last_hit)

-- A full map gives up one entry, and any other map none.
room_lem :
    (count capacity : ℕ) (m : Dict String L1Entry)
    → suc count < half64
    → 1 ≤ capacity
    → AreValid count m
    → ((length m < capacity) × (room (pos capacity) m ≡ m))
      ⊎ ((capacity ≤ length m)
          × ((victim : String) × IsVictim victim m × (room (pos capacity) m ≡ delete victim m)))
room_lem count capacity [] small positive v =
    let space : leb_ℤ (pos capacity) (pos 0) ≡ false = ground arith in inl (positive, rw space refl)
room_lem count capacity ((k, x) ∷ rest) small positive v =
    let m = (k, x) ∷ rest in
    elim (Bool-cases (leb_ℤ (pos capacity) (pos (length m)))) [
      | inr space ↦ inl (ground arith, rw space refl)
      | inl full ↦
          let (victim, e, there, evicted, least) =
            evict_one_lem k x rest v.named (early count m small v.ticked) in
          inr (
            ground arith,
            (
              victim,
              (
                e,
                read-In victim e m v.once there,
                λ key f found.
                    All-read (λ (y : String × L1Entry). e.last_hit ≤ℤ y.1.last_hit) key f m least
                      found,
              ),
              rw full evicted,
            ),
          )
    ]

module _ {V : Type 0} where
  abbrev pub written : MultiLevelCache V → Bytes → ℤ → ℕ → L1Entry
  written c bytes ttl now = record {
    bytes = bytes;
    expires_at = pos now +ℤ ttl;
    last_hit = wrap64 (c.clock +ℤ pos 1);
  }

  pub get_written :
      (c : MultiLevelCache V) (key : String) (bytes : Bytes) (ttl : ℤ) (now later : ℕ)
      → pos later ≤ℤ pos now +ℤ ttl
      → (l1_get key later (l1_set key bytes ttl now c)).1 ≡ some bytes
  unfolding l1_set l1_get
  get_written c key bytes ttl now later live =
      let test : ltb_ℤ (pos now +ℤ ttl) (pos later) ≡ false = ground arith in
      rw (read-write_self key (written c bytes ttl now) (room c.opts.l1_max_size c.l1), test) refl

  -- A write to a level whose size is within a positive limit, with distinct keys that are not empty
  -- and no hit above a counter that has room, adds or overwrites the entry of its key, with the next
  -- tick as its hit. Below the limit it changes nothing else; at the limit exactly one key that was
  -- there is deleted first, and no entry was hit less recently than its entry.
  pub l1_set_lem :
      (count : ℕ) (c : MultiLevelCache V) (key : String) (bytes : Bytes) (ttl : ℤ) (now : ℕ)
      → suc count < half64
      → IsValid count c
      → ((pos (length c.l1) <ℤ c.opts.l1_max_size)
          × ((l1_set key bytes ttl now c).l1 ≡ write key (written c bytes ttl now) c.l1))
        ⊎ ((c.opts.l1_max_size ≤ℤ pos (length c.l1))
            × ((victim : String) × IsVictim victim c.l1
                × ((l1_set key bytes ttl now c).l1
                    ≡ write key (written c bytes ttl now) (delete victim c.l1))))
  unfolding l1_set
  l1_set_lem count c key bytes ttl now small v =
      elim (room_lem count v.capacity c.l1 small v.positive v.entries) [
        | inl (space, same) ↦
            let kept : room c.opts.l1_max_size c.l1 ≡ c.l1 = rw v.limit same in
            inl (rw v.limit (omega arith), ap (λ m. write key (written c bytes ttl now) m) kept)
        | inr (full, (victim, least, gone)) ↦
            let kept : room c.opts.l1_max_size c.l1 ≡ delete victim c.l1 = rw v.limit gone in
            inr (
              rw v.limit (omega arith),
              (victim, least, ap (λ m. write key (written c bytes ttl now) m) kept),
            )
      ]
