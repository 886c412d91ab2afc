-- ===== src/Schema/Chains.antt =====
-- In every run that respects the dependencies, the migrations of an app come in the order of their
-- numbers.
use django_ninja_rbac_authen.Prelude.{
  ℕ, suc, ◌-◌, ◌≡◌, refl, sym, ap, ◌∙◌, inl, inr, Bool, true, ◌||◌, List, [], ◌∷◌, ◌++◌, arith, leb,
  if◌then◌else◌, Bool-cases, take, append_assoc, append-nil, subst, take-length_le,
}
use mathlib.Core.Bool.{and-eq-true_iff}
use django_ninja_rbac_authen.Schema.{Dependency}
use django_ninja_rbac_authen.Schema.History.{
  App, accounts, audit, authz, same_app, MigrationId, accounts_0001, accounts_0002, audit_0001,
  authz_0001, authz_0002, authz_0003, authz_0004, authz_0005, authz_0006, authz_0007, app_of,
  number, mentions, is_ready, is_plan, is_complete,
}

-- The migrations of an app in the order of their numbers
abbrev pub chain : App → List MigrationId
chain accounts = accounts_0001 ∷ accounts_0002 ∷ []
chain audit = audit_0001 ∷ []
chain authz =
    authz_0001 ∷ authz_0002 ∷ authz_0003 ∷ authz_0004 ∷ authz_0005 ∷ authz_0006 ∷ authz_0007 ∷ []

-- The part of a run that belongs to an app
abbrev pub of_app : App → List MigrationId → List MigrationId
of_app a [] = []
of_app a (i ∷ is) = let rest = of_app a is in if same_app (app_of i) a then i ∷ rest else rest

-- How many migrations of each app have run
abbrev Progress : Type 0
Progress = App → ℕ

abbrev advance : App → Progress → Progress
advance a p b = if same_app a b then suc (p b) else p b

-- Of each app the first ones have run.
abbrev IsAt : List MigrationId → Progress → Type 0
IsAt applied p = (i : MigrationId) → mentions i applied ≡ leb (number i) (p (app_of i))

module _ (installed : Dependency → Bool) (applied : List MigrationId) (p : Progress)
    (at : IsAt applied p) where
  ready_next :
      (i : MigrationId) → is_ready installed applied i ≡ true → number i ≡ suc (p (app_of i))
  unfolding is_ready
  ready_next accounts_0001 h = ground (arith, at accounts_0001)
  ready_next accounts_0002 h = ground (arith, at accounts_0001, at accounts_0002)
  ready_next audit_0001 h = ground (arith, at audit_0001)
  ready_next authz_0001 h = ground (arith, at authz_0001)
  ready_next authz_0002 h = ground (arith, at authz_0001, at authz_0002)
  ready_next authz_0003 h = ground (arith, at authz_0002, at authz_0003)
  ready_next authz_0004 h = ground (arith, at authz_0003, at authz_0004)
  ready_next authz_0005 h = ground (arith, at authz_0004, at authz_0005)
  ready_next authz_0006 h = ground (arith, at authz_0005, at authz_0006)
  ready_next authz_0007 h = ground (arith, at authz_0006, at authz_0007)

same_app-eq : (a b : App) → same_app a b ≡ true → a ≡ b
same_app-eq accounts accounts h = refl
same_app-eq audit audit h = refl
same_app-eq authz authz h = refl
same_app-eq _ _ h = absurd (cc)

advance-IsAt :
    (applied : List MigrationId) (p : Progress) (i : MigrationId)
    → IsAt applied p
    → number i ≡ suc (p (app_of i))
    → IsAt (i ∷ applied) (advance (app_of i) p)
advance-IsAt applied p i at h j = elim (Bool-cases (same_app (app_of i) (app_of j))) [
  | inl e ↦ let q = ap p (same_app-eq (app_of i) (app_of j) e) in rw e (ground (arith, at j))
  | inr e ↦ rw e (at j)
]

-- The migrations that a run leaves applied, last first
abbrev applied_after : List MigrationId → List MigrationId → List MigrationId
applied_after [] applied = applied
applied_after (i ∷ plan) applied = applied_after plan (i ∷ applied)

take-chain :
    (i : MigrationId)
    → take (number i) (chain (app_of i)) ≡ take (number i - 1) (chain (app_of i)) ++ i ∷ []
take-chain accounts_0001 = refl
take-chain accounts_0002 = refl
take-chain audit_0001 = refl
take-chain authz_0001 = refl
take-chain authz_0002 = refl
take-chain authz_0003 = refl
take-chain authz_0004 = refl
take-chain authz_0005 = refl
take-chain authz_0006 = refl
take-chain authz_0007 = refl

take-chain_next :
    (i : MigrationId) (p : Progress)
    → number i ≡ suc (p (app_of i))
    → take (suc (p (app_of i))) (chain (app_of i))
      ≡ take (p (app_of i)) (chain (app_of i)) ++ i ∷ []
take-chain_next i p h =
    ap (λ n. take n (chain (app_of i))) (sym h)
    ∙ take-chain i
    ∙ ap (λ n. take n (chain (app_of i)) ++ i ∷ []) (omega arith)

same_app_refl : (a : App) → same_app a a ≡ true
same_app_refl accounts = refl
same_app_refl audit = refl
same_app_refl authz = refl

-- One migration of the run, seen from an app.
abbrev StepAt : MigrationId → Progress → List MigrationId → App → Type 0
StepAt i p rest a =
    take (p a) (chain a) ++ (if same_app (app_of i) a then i ∷ rest else rest)
    ≡ take (advance (app_of i) p a) (chain a) ++ rest

chain-step_own :
    (i : MigrationId) (p : Progress) (rest : List MigrationId)
    → number i ≡ suc (p (app_of i))
    → StepAt i p rest (app_of i)
chain-step_own i p rest h = rw (same_app_refl (app_of i)) (
    sym (
      ap (λ xs. xs ++ rest) (take-chain_next i p h)
      ∙ append_assoc (take (p (app_of i)) (chain (app_of i))) (i ∷ []) rest))

chain-step :
    (i : MigrationId) (p : Progress) (a : App) (rest : List MigrationId)
    → number i ≡ suc (p (app_of i))
    → StepAt i p rest a
chain-step i p a rest h = elim (Bool-cases (same_app (app_of i) a)) [
  | inl e ↦ subst (StepAt i p rest) (same_app-eq (app_of i) a e) (chain-step_own i p rest h)
  | inr e ↦ rw e refl
]

-- Where a run ends: how many migrations of each app it leaves applied, and what it ran of each.
abbrev Ends : List MigrationId → List MigrationId → Progress → Type 0
Ends applied plan p =
    (q : Progress) × IsAt (applied_after plan applied) q
    × ((a : App) → take (p a) (chain a) ++ of_app a plan ≡ take (q a) (chain a))

plan-Ends :
    (installed : Dependency → Bool) (applied plan : List MigrationId) (p : Progress)
    → IsAt applied p
    → is_plan installed applied plan ≡ true
    → Ends applied plan p
unfolding is_plan
plan-Ends installed applied [] p at h = (p, at, λ a. append-nil (take (p a) (chain a)))
plan-Ends installed applied (i ∷ plan) p at h =
    let (ready, later) = (and-eq-true_iff _ _).0 h in
    let next = ready_next installed applied p at i ready in
    let (q, at_end, ran) =
      plan-Ends installed (i ∷ applied) plan (advance (app_of i) p)
        (advance-IsAt applied p i at next) later in
    (q, at_end, λ a. chain-step i p a (of_app a plan) next ∙ ran a)

mentions-after :
    (i : MigrationId) (plan applied : List MigrationId)
    → (mentions i plan || mentions i applied) ≡ true
    → mentions i (applied_after plan applied) ≡ true
mentions-after i [] applied h = h
mentions-after i (j ∷ plan) applied h = mentions-after i plan (j ∷ applied) (ground arith)

complete-mentions :
    (plan : List MigrationId)
    → is_complete plan ≡ true
    → (mentions accounts_0002 plan ≡ true)
      × (mentions audit_0001 plan ≡ true)
      × (mentions authz_0007 plan ≡ true)
complete-mentions plan h = ground arith

-- The number of an app's last migration
last : App → MigrationId
last accounts = accounts_0002
last audit = audit_0001
last authz = authz_0007

take-chain_all : (a : App) (n : ℕ) → leb (number (last a)) n ≡ true → take n (chain a) ≡ chain a
unfolding last
take-chain_all accounts n h = take-length_le n (chain accounts) (ground arith)
take-chain_all audit n h = take-length_le n (chain audit) (ground arith)
take-chain_all authz n h = take-length_le n (chain authz) (ground arith)

mentions-last :
    (plan : List MigrationId) → is_complete plan ≡ true → (a : App) → mentions (last a) plan ≡ true
unfolding last
mentions-last plan h accounts = (complete-mentions plan h).0
mentions-last plan h audit = (complete-mentions plan h).1
mentions-last plan h authz = (complete-mentions plan h).2

app_of-last : (a : App) → app_of (last a) ≡ a
unfolding last
app_of-last accounts = refl
app_of-last audit = refl
app_of-last authz = refl

nothing-IsAt : IsAt [] (λ _. 0)
nothing-IsAt accounts_0001 = refl
nothing-IsAt accounts_0002 = refl
nothing-IsAt audit_0001 = refl
nothing-IsAt authz_0001 = refl
nothing-IsAt authz_0002 = refl
nothing-IsAt authz_0003 = refl
nothing-IsAt authz_0004 = refl
nothing-IsAt authz_0005 = refl
nothing-IsAt authz_0006 = refl
nothing-IsAt authz_0007 = refl

-- A run of every migration that respects the dependencies runs each app's in the order of their
-- numbers.
pub of_app-chain :
    (installed : Dependency → Bool) (plan : List MigrationId) (a : App)
    → is_plan installed [] plan ≡ true
    → is_complete plan ≡ true
    → of_app a plan ≡ chain a
of_app-chain installed plan a h c =
    let (q, at_end, ran) = plan-Ends installed [] plan (λ _. 0) nothing-IsAt h in
    let seen = mentions-after (last a) plan [] (rw (mentions-last plan c a) refl) in
    let reached = sym (at_end (last a)) ∙ seen in
    ran a
    ∙ take-chain_all a (q a)
        (subst (λ b. leb (number (last a)) (q b) ≡ true) (app_of-last a) reached)
