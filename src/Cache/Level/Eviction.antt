-- ===== src/Cache/Level/Eviction.antt =====
-- Which entry the local level of internal/services/cache/cache.go gives up.
use go_backend_core.Prelude.{
  ◌≡◌, refl, ◌≢◌, ap, sym, false, inl, inr, ◌⊎◌, [], ◌∷◌, String, All, In, arith, if◌then◌else◌,
  Bool-cases,
}
use go_backend_core.Prelude.Int.{ℤ, ◌≤ℤ◌, ◌<ℤ◌, ltb_ℤ}
use go_backend_core.Prelude.Equality.{◌==◌, string_eq}
use go_backend_core.Prelude.Dict.{Dict, delete}
use go_backend_core.Prelude.Entries.{All-In}
use go_backend_core.Cache.Level.{L1Entry, oldest_key, greatest64, evict_one}

-- The hit that goes with `oldest_key`.
oldest_hit : ℤ → Dict String L1Entry → ℤ
oldest_hit hit [] = hit
oldest_hit hit ((k, e) ∷ rest) = oldest_hit (if ltb_ℤ e.last_hit hit then e.last_hit else hit) rest

oldest_hit-le :
    (hit : ℤ) (m : Dict String L1Entry)
    → (oldest_hit hit m ≤ℤ hit) × All (λ (e : String × L1Entry). oldest_hit hit m ≤ℤ e.1.last_hit) m
unfolding oldest_hit
oldest_hit-le hit [] = (omega arith, tt)
oldest_hit-le hit ((k, e) ∷ rest) =
    let least : ℤ = if ltb_ℤ e.last_hit hit then e.last_hit else hit in
    let (low, all) = oldest_hit-le least rest in
    let below : (least ≤ℤ hit) × (least ≤ℤ e.last_hit) = ground arith in
    (omega (arith, low, below), (omega (arith, low, below), all))

-- Either no entry is older, or the key is that of an entry with the least hit.
IsOldest : String → ℤ → String → ℤ → Dict String L1Entry → Type 0
IsOldest start hit key least m =
    ((key ≡ start) × (least ≡ hit))
    ⊎ ((e : L1Entry) × In (key, e) m × (e.last_hit ≡ least) × (least <ℤ hit))

first_or_start :
    (start : String) (hit : ℤ) (k : String) (e : L1Entry) (rest : Dict String L1Entry)
    (key : String) (least : ℤ)
    → key ≡ (if ltb_ℤ e.last_hit hit then k else start)
    → least ≡ (if ltb_ℤ e.last_hit hit then e.last_hit else hit)
    → IsOldest start hit key least ((k, e) ∷ rest)
unfolding IsOldest
first_or_start start hit k e rest key least same low = elim (Bool-cases (ltb_ℤ e.last_hit hit)) [
  | inl older ↦
      let here : key ≡ k = rw older at same in
      let its : least ≡ e.last_hit = rw older at low in
      inr (e, inl (ap (λ x. (x, e)) (sym here)), sym its, ground arith)
  | inr newer ↦ inl (rw newer at same, rw newer at low)
]

oldest_key-IsOldest :
    (start : String) (hit : ℤ) (m : Dict String L1Entry)
    → IsOldest start hit (oldest_key start hit m) (oldest_hit hit m) m
unfolding oldest_key oldest_hit IsOldest
oldest_key-IsOldest start hit [] = inl (refl, refl)
oldest_key-IsOldest start hit ((k, e) ∷ rest) =
    let older = ltb_ℤ e.last_hit hit in
    elim (oldest_key-IsOldest (if older then k else start) (if older then e.last_hit else hit)
      rest) [
        | inl (same, least) ↦ first_or_start start hit k e rest _ _ same least
        | inr (f, there, least, lower) ↦ inr (f, inr there, least, ground arith)
      ]

least_of :
    (e : L1Entry) (hit : ℤ) (m : Dict String L1Entry)
    → e.last_hit ≡ oldest_hit hit m
    → All (λ (x : String × L1Entry). e.last_hit ≤ℤ x.1.last_hit) m
least_of e hit m same = rw same (oldest_hit-le hit m).1

-- Of entries with keys that are not empty and with hits below the greatest number, one with the
-- least hit is given up.
pub evict_one_lem :
    (k : String) (x : L1Entry) (rest : Dict String L1Entry)
    → All (λ (e : String × L1Entry). e.0 ≢ "") ((k, x) ∷ rest)
    → All (λ (e : String × L1Entry). e.1.last_hit <ℤ greatest64) ((k, x) ∷ rest)
    → (key : String) × (e : L1Entry) × In (key, e) ((k, x) ∷ rest)
      × (evict_one ((k, x) ∷ rest) ≡ delete key ((k, x) ∷ rest))
      × All (λ (y : String × L1Entry). e.last_hit ≤ℤ y.1.last_hit) ((k, x) ∷ rest)
unfolding evict_one IsOldest
evict_one_lem k x rest named (early, _) =
    let m = (k, x) ∷ rest in
    elim (oldest_key-IsOldest "" greatest64 m) [
      | inl (none_found, least) ↦
          let (_, (low, _)) = oldest_hit-le greatest64 m in absurd (ground arith)
      | inr (e, there, its, lower) ↦
          let key = oldest_key "" greatest64 m in
          let full : key ≢ "" =
            All-In (λ (y : String × L1Entry). y.0 ≢ "") (key, e) m named there in
          let test : (key == "") ≡ false = ground (arith, string_eq.equals_iff key "") in
          (key, e, there, rw test refl, least_of e greatest64 m its)
    ]
