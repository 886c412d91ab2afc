-- ===== src/AuditLogs/Listing.antt =====
-- What `AuditRepository.alist` (apps/audit/repositories.py) returns.
use mathlib.Core.List.{Perm}
use mathlib.Core.List.Perm
use mathlib.Core.Bool.{and-eq-true_iff}
use django_ninja_rbac_authen.Prelude.{
  ℕ, ◌≤◌, ◌≡◌, refl, ◌↔◌, Bool, true, false, Option, none, some, List, [], ◌∷◌, arith, leb, str_eq,
  eq_iff, length, take, drop, map, select, All, All-map, Pairwise, Bool-cases, inl, inr,
}
use django_ninja_rbac_authen.Effects.{ok}
use django_ninja_rbac_authen.AuditLogs.{
  AuditLog, audit_log_dto, AuditTable, AuditFilter, matches, is_newer, passes, is_actor,
  insert_newest_first, newest_first, alist,
}

-- No later row of the list is newer.
abbrev pub NewestFirst : List AuditLog → Type 0
NewestFirst = Pairwise (λ a b. is_newer b a ≡ false)

is_newer_trans :
    (a b c : AuditLog) → is_newer b a ≡ false → is_newer c b ≡ false → is_newer c a ≡ false
is_newer_trans a b c h k = ground arith

is_newer_asymm : (a b : AuditLog) → is_newer a b ≡ true → is_newer b a ≡ false
is_newer_asymm a b h = ground arith

All-insert :
    (P : AuditLog → Type 0) (r : AuditLog) (qs : List AuditLog)
    → P r
    → All P qs
    → All P (insert_newest_first r qs)
unfolding insert_newest_first
All-insert P r [] h hs = (h, tt)
All-insert P r (q ∷ qs) h hs = elim (Bool-cases (is_newer q r)) [
  | inl e ↦ rw e (hs.0, All-insert P r qs h hs.1)
  | inr e ↦ rw e (h, hs)
]

insert-NewestFirst :
    (r : AuditLog) (qs : List AuditLog) → NewestFirst qs → NewestFirst (insert_newest_first r qs)
unfolding insert_newest_first
insert-NewestFirst r [] h = (tt, tt)
insert-NewestFirst r (q ∷ qs) h = elim (Bool-cases (is_newer q r)) [
  | inl e ↦ rw e (
    All-insert (λ b. is_newer b q ≡ false) r qs (is_newer_asymm q r e) h.0,
    insert-NewestFirst r qs h.1,
  )
  | inr e ↦ rw e ((e, All-map _ _ qs (λ b k. is_newer_trans r q b e k) h.0), h)
]

newest_first-NewestFirst : (rs : List AuditLog) → NewestFirst (newest_first rs)
unfolding newest_first
newest_first-NewestFirst [] = tt
newest_first-NewestFirst (r ∷ rs) =
    insert-NewestFirst r (newest_first rs) (newest_first-NewestFirst rs)

insert-perm : (r : AuditLog) (qs : List AuditLog) → Perm (insert_newest_first r qs) (r ∷ qs)
unfolding insert_newest_first
insert-perm r [] = Perm.refl (r ∷ [])
insert-perm r (q ∷ qs) = elim (Bool-cases (is_newer q r)) [
  | inl e ↦ rw e (Perm.trans (Perm.cons q (insert-perm r qs)) (Perm.swap r q qs))
  | inr e ↦ rw e (Perm.refl (r ∷ q ∷ qs))
]

newest_first-perm : (rs : List AuditLog) → Perm (newest_first rs) rs
unfolding newest_first
newest_first-perm [] = Perm.nil
newest_first-perm (r ∷ rs) =
    Perm.trans (insert-perm r (newest_first rs)) (Perm.cons r (newest_first-perm rs))

length-insert :
    (r : AuditLog) (qs : List AuditLog) → length (insert_newest_first r qs) ≡ length (r ∷ qs)
unfolding insert_newest_first
length-insert r [] = refl
length-insert r (q ∷ qs) = ground (arith, length-insert r qs)

length-newest_first : (rs : List AuditLog) → length (newest_first rs) ≡ length rs
unfolding newest_first
length-newest_first [] = refl
length-newest_first (r ∷ rs) =
    ground (arith, length-insert r (newest_first rs), length-newest_first rs)

-- What a filter asks of a row; an absent one asks nothing.
abbrev pub Asks {ℓ} : {A : Type ℓ} → Option A → (A → Type 0) → Type 0
Asks none P = Unit
Asks (some a) P = P a

pub record Meets (f : AuditFilter) (r : AuditLog) : Type 0 where
  pub actor_id : Asks f.actor_id (λ a. r.actor_id ≡ some a)
  pub action : Asks f.action (λ a. r.action ≡ a)
  pub outcome : Asks f.outcome (λ o. r.outcome ≡ o)
  pub from_at : Asks f.from_at (λ t. t ≤ r.created_at)
  pub to_at : Asks f.to_at (λ t. r.created_at ≤ t)

passes_iff {ℓ} :
    {A : Type ℓ} (o : Option A) (test : A → Bool) (P : A → Type 0)
    → ((a : A) → (test a ≡ true) ↔ P a)
    → (passes o test ≡ true) ↔ Asks o P
passes_iff none test P h = (λ _. tt, λ _. refl)
passes_iff (some a) test P h = h a

is_actor_iff : (o : Option ℕ) (a : ℕ) → (is_actor o a ≡ true) ↔ (o ≡ some a)
is_actor_iff none a = ground arith
is_actor_iff (some b) a = ground arith

matches_iff : (f : AuditFilter) (r : AuditLog) → (matches f r ≡ true) ↔ Meets f r
matches_iff f r =
    let actors =
      passes_iff f.actor_id (is_actor r.actor_id) (λ a. r.actor_id ≡ some a)
        (is_actor_iff r.actor_id) in
    let actions = passes_iff f.action (str_eq r.action) (λ a. r.action ≡ a) (eq_iff r.action) in
    let outcomes =
      passes_iff f.outcome (str_eq r.outcome) (λ a. r.outcome ≡ a) (eq_iff r.outcome) in
    let froms =
      passes_iff f.from_at (λ t. leb t r.created_at) (λ t. t ≤ r.created_at) (λ t. ground arith) in
    let tos = passes_iff f.to_at (leb r.created_at) (λ t. r.created_at ≤ t) (λ t. ground arith) in
    (
      λ h.
          let (h₁, e) = (and-eq-true_iff _ _).0 h in
          let (h₂, d) = (and-eq-true_iff _ _).0 h₁ in
          let (h₃, c) = (and-eq-true_iff _ _).0 h₂ in
          let (a, b) = (and-eq-true_iff _ _).0 h₃ in
          record {
            actor_id = actors.0 a;
            action = actions.0 b;
            outcome = outcomes.0 c;
            from_at = froms.0 d;
            to_at = tos.0 e;
          },
      λ m.
          rw
            (
              actors.1 m.actor_id,
              actions.1 m.action,
              outcomes.1 m.outcome,
              froms.1 m.from_at,
              tos.1 m.to_at,
            )
            refl,
    )

-- The listing of the audit trail: the stored rows that meet every filter given, and no others, in an
-- order in which no later row is newer, by its instant and then by its key. Of these it returns the
-- requested slice, as value objects, and how many there are in all, and it changes nothing.
pub alist-page :
    (offset limit : ℕ) (f : AuditFilter) (t : AuditTable)
    → (wanted : AuditLog → Bool) × (log : List AuditLog) × ((r : AuditLog)
        → (wanted r ≡ true) ↔ Meets f r)
      × Perm log (select wanted t.rows)
      × NewestFirst log
      × (alist offset limit f t
          ≡ (ok (map audit_log_dto (take limit (drop offset log)), length log), t))
unfolding alist
alist-page offset limit f t =
    let found = select (matches f) t.rows in
    (
      matches f,
      newest_first found,
      matches_iff f,
      newest_first-perm found,
      newest_first-NewestFirst found,
      rw (length-newest_first found) refl,
    )
