-- ===== src/AuditService/Effect.antt =====
-- What recording an event does to the state: it appends one row to the audit trail, or nothing.
use django_ninja_rbac_authen.Prelude.{
  ℕ, suc, ◌≡◌, refl, ◌⊎◌, inl, inr, false, Option, none, some, List, [], ◌∷◌, ◌++◌, String,
  Bool-cases, str_eq, find,
}
use django_ninja_rbac_authen.Effects.{Result, ok}
use django_ninja_rbac_authen.Metadata.{
  Metadata, end, field, str, assign, sanitize_optional, is_sensitive_metadata_key,
}
use django_ninja_rbac_authen.Metadata.Sanitized.{IsClean, sanitize_metadata-IsClean}
use django_ninja_rbac_authen.Platform.{Deployment}
use django_ninja_rbac_authen.Users.{User}
use django_ninja_rbac_authen.Users
use django_ninja_rbac_authen.AuditLogs.{AuditContext, AuditLog, action_code, acreate, new_log}
use django_ninja_rbac_authen.World.{World}
use django_ninja_rbac_authen.AuditService.{
  Event, outcome_code, event_metadata, log_of, with_email, with_actor_email, record_event,
}

request_id_clean : is_sensitive_metadata_key "request_id" ≡ false
unfolding is_sensitive_metadata_key
request_id_clean = refl

assign-IsClean :
    (k s : String) (m : Metadata)
    → is_sensitive_metadata_key k ≡ false
    → IsClean m
    → IsClean (assign k (str s) m)
unfolding assign
assign-IsClean k s end h c = (h, tt, tt)
assign-IsClean k s (field j v m) h c = elim (Bool-cases (str_eq j k)) [
  | inl e ↦ rw e (c.0, tt, c.2)
  | inr e ↦ rw e (c.0, c.1, assign-IsClean k s m h c.2)
]

sanitize_optional-IsClean : (m : Option Metadata) → IsClean (sanitize_optional m)
sanitize_optional-IsClean none = tt
sanitize_optional-IsClean (some m) = (sanitize_metadata-IsClean m).0

event_metadata-IsClean : (m : Option Metadata) (id : Option String) → IsClean (event_metadata m id)
event_metadata-IsClean m none = sanitize_optional-IsClean m
event_metadata-IsClean m (some id) =
    assign-IsClean "request_id" id (sanitize_optional m) request_id_clean
      (sanitize_optional-IsClean m)

-- A row that `record` may append for the event.
abbrev pub IsLogOf : Event → AuditLog → Type 0
IsLogOf e l =
    (l.action ≡ action_code e.action)
    × (l.outcome ≡ outcome_code e.outcome)
    × (l.target_type ≡ e.target_type)
    × IsClean l.metadata

module _ (d : Deployment) where
  -- The audit trail grew by such a row, or did not change.
  abbrev pub Appends : Event → List AuditLog → List AuditLog → Type 0
  Appends e before after =
      (after ≡ before) ⊎ ((l : AuditLog) × IsLogOf e l × (after ≡ before ++ l ∷ []))

  pub record OnlyLogs (e : Event) (w w' : World d) : Type 0 where
    pub users : w'.db.users ≡ w.db.users
    pub rbac : w'.db.rbac ≡ w.db.rbac
    pub tokens : w'.db.tokens ≡ w.db.tokens
    pub redis : w'.redis ≡ w.redis
    pub audit : Appends e w.db.audit.rows w'.db.audit.rows

  -- The context with which the row is written: as it came, or with the address of a stored user.
  abbrev pub Completes : AuditContext → List User → AuditContext → Type 0
  Completes c users c' =
      (c' ≡ c)
      ⊎ ((id : ℕ) × (u : User) × (find (Users.has_id id) users ≡ some u)
          × (c' ≡ record c { actor_email = some u.email }))

  ResolvesTo : AuditContext → Result AuditContext × World d → World d → Type 0
  ResolvesTo c r w =
      (c' : AuditContext) × (n : ℕ) × (r ≡ (ok c', record w { calls = n }))
      × Completes c w.db.users.rows c'

  found-Completes :
      (c : AuditContext) (id : ℕ) (w : World d) (o : Option User)
      → find (Users.has_id id) w.db.users.rows ≡ o
      → Completes c w.db.users.rows (with_email c (Users.dto? o))
  found-Completes c id w none h = inl refl
  found-Completes c id w (some u) h = inr (id, u, h, refl)

  lookup-ResolvesTo :
      (c : AuditContext) (id : ℕ) (w : World d)
      → ResolvesTo c (with_actor_email d c (some id) none w) w
  unfolding with_actor_email Users.aget_by_id ResolvesTo
  lookup-ResolvesTo c id w = elim (Bool-cases (d.platform.audit_up w.calls)) [
    | inl up ↦ (
      with_email c (Users.dto? (find (Users.has_id id) w.db.users.rows)),
      suc w.calls,
      rw up refl,
      found-Completes c id w (find (Users.has_id id) w.db.users.rows) refl,
    )
    | inr down ↦ (c, suc w.calls, rw down refl, inl refl)
  ]

  with_actor_email-ResolvesTo :
      (c : AuditContext) (id : Option ℕ) (email : Option String) (w : World d)
      → ResolvesTo c (with_actor_email d c id email w) w
  unfolding with_actor_email ResolvesTo
  with_actor_email-ResolvesTo c none email w = (c, w.calls, refl, inl refl)
  with_actor_email-ResolvesTo c (some id) (some email) w = (c, w.calls, refl, inl refl)
  with_actor_email-ResolvesTo c (some id) none w = lookup-ResolvesTo c id w

  -- Recording either fails silently, or appends the row of the event in such a context.
  abbrev pub Written : Event → AuditContext → World d → World d → Type 0
  Written e c w w' =
      (w'.db.audit.rows ≡ w.db.audit.rows)
      ⊎ ((c' : AuditContext) × (t : ℕ) × Completes c w.db.users.rows c'
          × (w'.db.audit.rows ≡ w.db.audit.rows ++ new_log w.db.audit.next_id t (log_of e c') ∷ []))

  Recorded : Event → AuditContext → World d → Result (Unit {0}) × World d → Type 0
  Recorded e c w r =
      (r.0 ≡ ok tt)
      × (r.1.db.users ≡ w.db.users)
      × (r.1.db.rbac ≡ w.db.rbac)
      × (r.1.db.tokens ≡ w.db.tokens)
      × (r.1.redis ≡ w.redis)
      × Written e c w r.1

  record_event-Recorded :
      (e : Event) (c : AuditContext) (w : World d) → Recorded e c w (record_event d e c w)
  unfolding record_event acreate ResolvesTo Recorded
  record_event-Recorded e c w =
      let (c', n, q, done) = with_actor_email-ResolvesTo c c.actor_id c.actor_email w in
      elim (Bool-cases (d.platform.audit_up n)) [
        | inr down ↦ rw (q, down) (refl, refl, refl, refl, refl, inl refl)
        | inl up ↦
            rw (q, up) (refl, refl, refl, refl, refl, inr (c', d.platform.now (suc n), done, refl))
      ]

  pub record_event-Written :
      (e : Event) (c : AuditContext) (w : World d) → Written e c w (record_event d e c w).1
  unfolding Recorded
  record_event-Written e c w = (record_event-Recorded e c w).5

  Written-Appends :
      (e : Event) (c : AuditContext) (w w' : World d)
      → Written e c w w'
      → Appends e w.db.audit.rows w'.db.audit.rows
  Written-Appends e c w w' (inl same) = inl same
  Written-Appends e c w w' (inr (c', t, _, h)) = inr (
    new_log w.db.audit.next_id t (log_of e c'),
    (refl, refl, refl, event_metadata-IsClean e.metadata c'.request_id),
    h,
  )

  -- Recording returns without an error, whatever fails, and changes nothing but the audit trail, to
  -- which it appends one row of this action and outcome, with clean metadata, or nothing.
  pub record_event-OnlyLogs :
      (e : Event) (c : AuditContext) (w : World d)
      → ((record_event d e c w).0 ≡ ok tt) × OnlyLogs e w (record_event d e c w).1
  unfolding Recorded
  record_event-OnlyLogs e c w =
      let (done, users, rbac, tokens, redis, written) = record_event-Recorded e c w in
      (
        done,
        record {
          users = users;
          rbac = rbac;
          tokens = tokens;
          redis = redis;
          audit = Written-Appends e c w (record_event d e c w).1 written;
        },
      )

  -- The state behind a recorded event.
  abbrev pub logged : Event → AuditContext → World d → World d
  logged e c w = (record_event d e c w).1

  pair_eta : (r : Result (Unit {0}) × World d) → r.0 ≡ ok tt → r ≡ (ok tt, r.1)
  pair_eta r h = λ i. (h i, r.1)

  pub record_event-ok :
      (e : Event) (c : AuditContext) (w : World d) → record_event d e c w ≡ (ok tt, logged e c w)
  record_event-ok e c w = pair_eta (record_event d e c w) (record_event-OnlyLogs e c w).0

  pub logged-OnlyLogs : (e : Event) (c : AuditContext) (w : World d) → OnlyLogs e w (logged e c w)
  logged-OnlyLogs e c w = (record_event-OnlyLogs e c w).1
