-- ===== src/Throttling/Rate.antt =====
-- Lemmas on `_normalize_rate`.
use Prim.Native.Char.{Char, code}
use Prim.Native.String as Text
use Prim.Native.String.append
use django_ninja_rbac_authen.Prelude.{
  ◌≡◌, refl, ap, sym, subst, ◌∙◌, Bool, true, false, not, ◌&&◌, String, str_eq, arith, inl, inr,
  ◌==◌, Bool-cases,
}
use django_ninja_rbac_authen.Throttling.{partition, unit, joined, normalized, normalize_rate}

partition-slash :
    (c : Char) (s : String) → (code c == b'/') ≡ true → partition (Text.◌∷◌ c s) ≡ ("", true, s)
unfolding partition
partition-slash c s h = rw h refl

partition-other :
    (c : Char) (s : String)
    → (code c == b'/') ≡ false
    → partition (Text.◌∷◌ c s) ≡ (Text.◌∷◌ c (partition s).0, (partition s).1, (partition s).2)
unfolding partition
partition-other c s h = rw h refl

-- What stands before a separator has none.
partition-joined :
    (s period : String)
    → partition (joined (partition s).0 period) ≡ ((partition s).0, true, period)
unfolding partition
partition-joined Text.[] period =
    ap partition (append.nil (Text.◌∷◌ "/" period)) ∙ partition-slash "/" period refl
partition-joined (Text.◌∷◌ c s) period = elim (Bool-cases (code c == b'/')) [
  | inl slash ↦
      subst (λ (a : String). partition (joined a period) ≡ (a, true, period))
        (sym (ap (λ (t : String × Bool × String). t.0) (partition-slash c s slash)))
        (ap partition (append.nil (Text.◌∷◌ "/" period)) ∙ partition-slash "/" period refl)
  | inr other ↦
      subst (λ (a : String). partition (joined a period) ≡ (a, true, period))
        (sym (ap (λ (t : String × Bool × String). t.0) (partition-other c s other)))
        (ap partition (append.cons c (partition s).0 (Text.◌∷◌ "/" period))
          ∙ partition-other c (joined (partition s).0 period) other
          ∙ ap (λ (t : String × Bool × String). (Text.◌∷◌ c t.0, t.1, t.2))
              (partition-joined s period))
]

-- The unit that replaces a name stays as it is, and is not empty.
unit_again :
    (period : String)
    → str_eq period "" ≡ false
    → (unit (unit period) ≡ unit period) × (str_eq (unit period) "" ≡ false)
unit_again period h = elim (Bool-cases (str_eq period "second")) [
  | inl e ↦ rw e (refl, refl)
  | inr e ↦ elim (Bool-cases (str_eq period "minute")) [
    | inl k ↦ rw (e, k) (refl, refl)
    | inr k ↦ rw (e, k) (rw (e, k) refl, h)
  ]
]

normalize_rate-joined :
    (rate count period : String)
    → str_eq count "" ≡ false
    → str_eq period "" ≡ false
    → normalized rate (count, true, period) ≡ joined count (unit period)
normalize_rate-joined rate count period c p = rw (c, p) refl

normalize_rate-partition : (rate : String) → normalize_rate rate ≡ normalized rate (partition rate)
unfolding normalize_rate
normalize_rate-partition rate = refl

normalized-again :
    (rate : String) (parts : String × Bool × String)
    → parts ≡ partition rate
    → normalize_rate (normalized rate parts) ≡ normalized rate parts
normalized-again rate (count, separator, period) e =
    elim (Bool-cases (not (str_eq count "") && separator && not (str_eq period ""))) [
      | inl whole ↦ rw whole (
          joined_again rate count separator period e (ground (arith, whole))
            (ground (arith, whole)))
      | inr kept ↦
          rw kept (normalize_rate-partition rate ∙ ap (normalized rate) (sym e) ∙ rw kept refl)
    ]
  where
    joined_again :
        (rate count : String) (separator : Bool) (period : String)
        → (count, separator, period) ≡ partition rate
        → str_eq count "" ≡ false
        → str_eq period "" ≡ false
        → normalize_rate (joined count (unit period)) ≡ joined count (unit period)
    joined_again rate count separator period e c p =
        let parts : partition (joined count (unit period)) ≡ (count, true, unit period) =
          subst (λ (a : String). partition (joined a (unit period)) ≡ (a, true, unit period))
            (sym (ap (λ (t : String × Bool × String). t.0) e))
            (partition-joined rate (unit period)) in
        let (again, nonempty) = unit_again period p in
        normalize_rate-partition (joined count (unit period))
        ∙ ap (normalized (joined count (unit period))) parts
        ∙ normalize_rate-joined (joined count (unit period)) count (unit period) c nonempty
        ∙ ap (joined count) again

-- Normalizing a rate a second time changes nothing.
pub normalize_rate-idempotent :
    (rate : String) → normalize_rate (normalize_rate rate) ≡ normalize_rate rate
normalize_rate-idempotent rate =
    ap normalize_rate (normalize_rate-partition rate)
    ∙ normalized-again rate (partition rate) refl
    ∙ sym (normalize_rate-partition rate)
