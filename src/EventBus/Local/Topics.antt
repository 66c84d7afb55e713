-- ===== src/EventBus/Local/Topics.antt =====
-- What the patterns of internal/services/eventbus/eventbus.go stand for.
use go_backend_core.Prelude.{
  ◌≡◌, refl, ap, sym, subst, ◌↔◌, ◌⊎◌, inl, inr, true, Option, none, some, String, Bool-cases,
  nat_beq, nat_beq_iff,
}
use go_backend_core.Prelude.Equality.{◌==◌, string_eq}
use go_backend_core.EventBus.Local.{cut_star, trim_star, has_prefix, match_topic, prepend}
use Prim.Native.Char.{Char, code}
use Prim.Native.String
use Prim.Native.String.append
use text.Mathlib.TextBridge.{IsPrefix}
use text.Mathlib.TextEquality.{starts_with_iff, Char-path}

abbrev star : Char
star = "*"

cut_star-append : (c : Char) (s : String) → cut_star c (String.◌++◌ s "*") ≡ some (String.◌∷◌ c s)
cut_star-append c String.[] = refl
cut_star-append c (String.◌∷◌ d s) = rw (append.cons d s "*", cut_star-append d s) refl

trim_star-append : (p : String) → trim_star (String.◌++◌ p "*") ≡ some p
trim_star-append String.[] = refl
trim_star-append (String.◌∷◌ c s) = rw (append.cons c s "*") (cut_star-append c s)

prepend_sound :
    (c : Char) (o : Option String) (p : String)
    → prepend c o ≡ some p
    → (q : String) × (o ≡ some q) × (p ≡ String.◌∷◌ c q)
prepend_sound c none p h = cc
prepend_sound c (some q) p h = (q, refl, cc)

cut_star_sound :
    (c : Char) (s p : String) → cut_star c s ≡ some p → String.◌∷◌ c s ≡ String.◌++◌ p "*"
cut_star_sound c String.[] p h = elim (Bool-cases (nat_beq (code c) b'*')) [
  | inl hit ↦
      let is : c ≡ star = Char-path c star ((nat_beq_iff (code c) b'*').0 hit) in
      let found : ◌≡◌ {A = Option String} (some "") (some p) = rw hit at h in
      let empty : "" ≡ p = cc in
      subst (λ q. String.◌∷◌ c "" ≡ String.◌++◌ q "*") empty (ap (λ d. String.◌∷◌ d "") is)
  | inr miss ↦ let none_found : ◌≡◌ {A = Option String} none (some p) = rw miss at h in absurd (cc)
]
cut_star_sound c (String.◌∷◌ d s) p h =
    let (q, found, same) = prepend_sound c (cut_star d s) p h in
    rw (same, append.cons c q "*") (ap (λ r. String.◌∷◌ c r) (cut_star_sound d s q found))

trim_star_sound : (s p : String) → trim_star s ≡ some p → s ≡ String.◌++◌ p "*"
trim_star_sound String.[] p h = cc
trim_star_sound (String.◌∷◌ c s) p h = cut_star_sound c s p h

-- What a pattern stands for: itself, and with a star at its end every topic that begins with the rest.
abbrev pub Covers : String → String → Type 0
Covers pattern topic =
    (pattern ≡ topic) ⊎ ((p : String) × (pattern ≡ String.◌++◌ p "*") × IsPrefix p topic)

has_prefix_iff :
    (topic : String) (trimmed : Option String)
    → (has_prefix topic trimmed ≡ true) ↔ ((p : String) × (trimmed ≡ some p) × IsPrefix p topic)
has_prefix_iff topic none = (λ h. absurd (cc), λ h. let (p, found, rest) = h in absurd (cc))
has_prefix_iff topic (some q) = (
  λ h. (q, refl, (starts_with_iff topic q).0 h),
  λ h.
      let (p, found, rest) = h in
      let same : q ≡ p = cc in
      (starts_with_iff topic q).1 (subst (λ x. IsPrefix x topic) (sym same) rest),
)

trim_star_iff : (s p : String) → (trim_star s ≡ some p) ↔ (s ≡ String.◌++◌ p "*")
trim_star_iff s p =
    (trim_star_sound s p, λ h. subst (λ x. trim_star x ≡ some p) (sym h) (trim_star-append p))

-- A pattern of a subscription matches exactly the topics that it covers: its own, and, if it ends
-- with a star, those that begin with what stands before the star.
pub match_topic_iff :
    (pattern topic : String) → (match_topic pattern topic ≡ true) ↔ Covers pattern topic
unfolding match_topic
match_topic_iff pattern topic = (forward, backward)
  where
    forward : match_topic pattern topic ≡ true → Covers pattern topic
    forward h = elim (Bool-cases (pattern == topic)) [
      | inl same ↦ inl ((string_eq.equals_iff pattern topic).0 same)
      | inr other ↦
          let (p, found, rest) = (has_prefix_iff topic (trim_star pattern)).0 (rw other at h) in
          inr (p, (trim_star_iff pattern p).0 found, rest)
    ]

    backward : Covers pattern topic → match_topic pattern topic ≡ true
    backward (inl same) = rw ((string_eq.equals_iff pattern topic).1 same) refl
    backward (inr (p, is, rest)) =
        let holds =
          (has_prefix_iff topic (trim_star pattern)).1 (p, (trim_star_iff pattern p).1 is, rest) in
        elim (Bool-cases (pattern == topic)) [
          | inl same ↦ rw same refl
          | inr other ↦ rw (other, holds) refl
        ]
