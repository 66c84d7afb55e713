-- ===== src/Cache/Level/Fresh.antt =====
-- The answers of the local level of internal/services/cache/cache.go: never an old value, never an
-- expired one.
use go_backend_core.Prelude.{
  ℕ, ◌≡◌, refl, ◌≢◌, ap, sym, ◌∙◌, inl, inr, Option, none, some, List, [], ◌∷◌, String, length,
  subst, arith, if◌then◌else◌, Bool-cases, Option-cases,
}
use go_backend_core.Prelude.Int.{ℤ, pos, ◌+ℤ◌, ◌≤ℤ◌, leb_ℤ}
use go_backend_core.Prelude.Equality.{◌==◌, string_eq}
use go_backend_core.Prelude.Dict.{Dict, read, write, delete, read-write, read-delete}
use go_backend_core.Prelude.Entries.{IsMap, All-read, write-IsMap, delete-IsMap}
use go_backend_core.Cache.Codecs.{Bytes, Codec, Registry}
use go_backend_core.Cache.Level.{
  L1Entry, MultiLevelCache, Options, new, empty_cache, evict_one, oldest_key, sweep, is_expired,
  l1_set, l1_get, l1_del, l1_clear, evict_tick, Call, gets, dels, sets, clears, ticks, step, run,
}
use go_backend_core.Cache.Level.Invariant.{room, sweep-IsMap}

-- What was last written under each key and not deleted since, with its expiry.
abbrev pub View : Type 0
View = String → Option (Bytes × ℤ)

abbrev pub note : String → Option (Bytes × ℤ) → View → View
note key o view other = if key == other then o else view other

abbrev pub none_written : View
none_written key = none

-- No answer is always allowed; a value is, if it is the last one written and has not expired.
abbrev pub Allows : ℕ → Option (Bytes × ℤ) → Option Bytes → Type 0
Allows now last none = Unit
Allows now none (some bytes) = ⊥
Allows now (some (written, expiry)) (some bytes) = (bytes ≡ written) × (pos now ≤ℤ expiry)

abbrev pub AreFresh : View → List (ℕ × Call) → List (Option Bytes) → Type 0
AreFresh view [] answers = answers ≡ []
AreFresh view ((now, gets key) ∷ cs) [] = ⊥
AreFresh view ((now, gets key) ∷ cs) (a ∷ answers) =
    Allows now (view key) a × AreFresh view cs answers
AreFresh view ((now, sets key bytes ttl) ∷ cs) answers =
    AreFresh (note key (some (bytes, pos now +ℤ ttl)) view) cs answers
AreFresh view ((now, dels key) ∷ cs) answers = AreFresh (note key none view) cs answers
AreFresh view ((now, clears) ∷ cs) answers = AreFresh none_written cs answers
AreFresh view ((now, ticks) ∷ cs) answers = AreFresh view cs answers

some_injective : {x y : L1Entry} → some x ≡ some y → x ≡ y
some_injective h = cc

none-ne : {e : L1Entry} → ¬ (◌≡◌ {A = Option L1Entry} none (some e))
none-ne h = cc

-- Each entry is the one last written.
record Follows (m : Dict String L1Entry) (view : View) : Type 0 where
  once : IsMap m
  last :
      (key : String) (e : L1Entry) → read key m ≡ some e → view key ≡ some (e.bytes, e.expires_at)

delete-Follows :
    (key : String) (m : Dict String L1Entry) (view : View)
    → Follows m view
    → Follows (delete key m) view
delete-Follows key m view f = record {
  once = delete-IsMap key m f.once;
  last = λ other e found. f.last other e (undeleted other e found);
}
  where
    undeleted :
        (other : String) (e : L1Entry) → read other (delete key m) ≡ some e → read other m ≡ some e
    undeleted other e found = ground (arith, read-delete key other m)

write-Follows :
    (key : String) (new_entry : L1Entry) (m : Dict String L1Entry) (view : View)
    → Follows m view
    → Follows (write key new_entry m) (note key (some (new_entry.bytes, new_entry.expires_at)) view)
write-Follows key new_entry m view f = record {
  once = write-IsMap key new_entry m f.once;
  last = λ other e found. noted other e (rw (read-write key other new_entry m) at found);
}
  where
    noted :
        (other : String) (e : L1Entry)
        → (if key == other then some new_entry else read other m) ≡ some e
        → note key (some (new_entry.bytes, new_entry.expires_at)) view other
          ≡ some (e.bytes, e.expires_at)
    noted other e found = elim (Bool-cases (key == other)) [
      | inl same ↦
          let it : new_entry ≡ e = some_injective (rw same at found) in
          rw same (ap (λ (x : L1Entry). some (x.bytes, x.expires_at)) it)
      | inr apart ↦ rw apart (f.last other e (rw apart at found))
    ]

forget-Follows :
    (key : String) (m : Dict String L1Entry) (view : View)
    → Follows m view
    → Follows (delete key m) (note key none view)
forget-Follows key m view f = record {
  once = delete-IsMap key m f.once;
  last = λ other e found. noted other e (rw (read-delete key other m) at found);
}
  where
    noted :
        (other : String) (e : L1Entry)
        → (if key == other then none else read other m) ≡ some e
        → note key none view other ≡ some (e.bytes, e.expires_at)
    noted other e found = elim (Bool-cases (key == other)) [
      | inl same ↦ absurd (none-ne (rw same at found))
      | inr apart ↦ rw apart (f.last other e (rw apart at found))
    ]

room-Follows :
    (limit : ℤ) (m : Dict String L1Entry) (view : View)
    → Follows m view
    → Follows (room limit m) view
unfolding evict_one
room-Follows limit m view f = elim (Bool-cases (leb_ℤ limit (pos (length m)))) [
  | inr space ↦ rw space f
  | inl full ↦ elim (Bool-cases (oldest_key "" (pos 9223372036854775807) m == "")) [
    | inl stays ↦ rw (full, stays) f
    | inr goes ↦ rw (full, goes) (delete-Follows _ m view f)
  ]
]

read-sweep :
    (now : ℕ) (m : Dict String L1Entry) (key : String) (e : L1Entry)
    → IsMap m
    → read key (sweep now m) ≡ some e
    → read key m ≡ some e
unfolding read sweep
read-sweep now [] key e once found = found
read-sweep now ((k, x) ∷ m) key e (new, once) found = elim (Bool-cases (is_expired now x)) [
  | inl gone ↦
      let there = read-sweep now m key e once (rw gone at found) in
      let apart : key ≢ k = All-read (λ (y : String × L1Entry). y.0 ≢ k) key e m new there in
      ground (arith, string_eq.equals_iff k key, λ (h : k ≡ key). apart (sym h))
  | inr stays ↦ elim (Bool-cases (k == key)) [
    | inl same ↦ ground arith
    | inr other ↦ rw other (read-sweep now m key e once (rw (stays, other) at found))
  ]
]

sweep-Follows :
    (now : ℕ) (m : Dict String L1Entry) (view : View) → Follows m view → Follows (sweep now m) view
sweep-Follows now m view f = record {
  once = sweep-IsMap now m f.once;
  last = λ key e found. f.last key e (read-sweep now m key e f.once found);
}

-- A hit only changes when the entry was hit.
touch-Follows :
    (key : String) (e : L1Entry) (tick : ℤ) (m : Dict String L1Entry) (view : View)
    → read key m ≡ some e
    → Follows m view
    → Follows (write key (record e { last_hit = tick }) m) view
touch-Follows key e tick m view found f = record {
  once = write-IsMap key (record e { last_hit = tick }) m f.once;
  last = λ other x there.
      same other x (rw (read-write key other (record e { last_hit = tick }) m) at there);
}
  where
    same :
        (other : String) (x : L1Entry)
        → (if key == other then some (record e { last_hit = tick }) else read other m) ≡ some x
        → view other ≡ some (x.bytes, x.expires_at)
    same other x there = elim (Bool-cases (key == other)) [
      | inl here ↦
          let it : record e { last_hit = tick } ≡ x = some_injective (rw here at there) in
          let is : key ≡ other = (string_eq.equals_iff key other).0 here in
          rw (sym is) (f.last key e found) ∙ ap (λ (y : L1Entry). some (y.bytes, y.expires_at)) it
      | inr apart ↦ f.last other x (rw apart at there)
    ]

nothing_read :
    (key : String) (e : L1Entry)
    → read key [] ≡ some e
    → none_written key ≡ some (e.bytes, e.expires_at)
unfolding read
nothing_read key e found = cc

module _ {V : Type 0} where
  empty_follows :
      (opts : Options) (codec : Option (Codec V)) (c : MultiLevelCache V)
      → empty_cache opts codec ≡ some c
      → Follows c.l1 none_written
  empty_follows opts none c h = cc
  empty_follows opts (some codec) c h =
      let same : record {
        opts = opts;
        l1 = [];
        codec = codec;
        hits = pos 0;
        misses = pos 0;
        clock = pos 0;
      }
          ≡ c =
        cc in
      subst (λ (x : MultiLevelCache V). Follows x.l1 none_written) same
        (record { once = tt; last = λ key e found. nothing_read key e found })

  get_fresh :
      (now : ℕ) (key : String) (c : MultiLevelCache V) (view : View)
      → Follows c.l1 view
      → Allows now (view key) (l1_get key now c).1 × Follows (l1_get key now c).0.l1 view
  unfolding l1_get
  get_fresh now key c view f = elim (Option-cases (read key c.l1)) [
    | inl missing ↦ rw missing (tt, f)
    | inr (e, found) ↦ elim (Bool-cases (is_expired now e)) [
      | inl gone ↦ rw (found, gone) (tt, delete-Follows key c.l1 view f)
      | inr live ↦
          rw (found, live, f.last key e found)
            ((refl, ground arith), touch-Follows key e _ c.l1 view found f)
    ]
  ]

  run-AreFresh :
      (cs : List (ℕ × Call)) (c : MultiLevelCache V) (view : View)
      → Follows c.l1 view
      → AreFresh view cs (run cs c).1
  unfolding run step l1_set l1_del l1_clear evict_tick
  run-AreFresh [] c view f = refl
  run-AreFresh ((now, gets key) ∷ cs) c view f =
      let (allowed, f') = get_fresh now key c view f in
      (allowed, run-AreFresh cs (l1_get key now c).0 view f')
  run-AreFresh ((now, sets key bytes ttl) ∷ cs) c view f =
      run-AreFresh cs (l1_set key bytes ttl now c) _ (
        write-Follows key _ (room c.opts.l1_max_size c.l1) view
          (room-Follows c.opts.l1_max_size c.l1 view f))
  run-AreFresh ((now, dels key) ∷ cs) c view f =
      run-AreFresh cs (l1_del key c) _ (forget-Follows key c.l1 view f)
  run-AreFresh ((now, clears) ∷ cs) c view f =
      run-AreFresh cs (l1_clear c) none_written
        (record { once = tt; last = λ key e found. nothing_read key e found })
  run-AreFresh ((now, ticks) ∷ cs) c view f =
      run-AreFresh cs (evict_tick now c) view (sweep-Follows now c.l1 view f)

  -- However the local level of a new cache is used, and whatever is evicted, each read that answers
  -- with a value gives the one last written under the key, which was not deleted or cleared since
  -- and has not expired.
  pub run_l1-AreFresh :
      (r : Registry V) (opts : Options) (c : MultiLevelCache V) (cs : List (ℕ × Call))
      → new r opts ≡ some c
      → AreFresh none_written cs (run cs c).1
  unfolding new
  run_l1-AreFresh r opts c cs made = run-AreFresh cs c none_written (empty_follows _ _ c made)
