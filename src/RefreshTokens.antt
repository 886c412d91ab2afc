-- ===== src/RefreshTokens.antt =====
-- apps/authz/repositories/refresh_tokens.py over the rows of the RefreshToken table
-- (apps/authz/models.py). The table is a list of rows in the order of creation; a query filters or
-- updates that list, and the database's sequence gives the next primary key.
use django_ninja_rbac_authen.Prelude.{
  ℕ, ◌+◌, ◌≡◌, Bool, true, false, not, ◌&&◌, Option, none, some, List, [], ◌∷◌, ◌++◌, String,
  str_eq, ◌==◌, leb, is_none, opt_str_eq, py_or, find, any, select, update_where, if◌then◌else◌,
}
pub mod Cases
pub mod Valid
pub mod History
pub mod Replay
pub mod Outcomes
pub mod Total
pub mod Families
pub mod Endings
pub mod Refinement
pub mod Simulation
use django_ninja_rbac_authen.Errors.{integrity_error}
use django_ninja_rbac_authen.Effects.{
  Result, ok, err, Action, pure, raise, gets, run_in_transaction, ◌>>=◌, ◌>>◌,
}

-- The model `RefreshToken`. An instant is a number of microseconds since 1970, a UUID is its text.
pub record RefreshToken : Type 0 where
  pub id : ℕ
  pub user_id : ℕ
  pub token_hash : String
  pub family_id : String
  pub parent_id : Option ℕ
  pub device_hash : Option String
  pub issued_ip : Option String
  pub expires_at : ℕ
  pub revoked_at : Option ℕ

pub record TokenTable : Type 0 where
  pub rows : List RefreshToken
  pub next_id : ℕ

pub record RefreshTokenDto : Type 0 where
  pub id : ℕ
  pub user_id : ℕ
  pub token_hash : String
  pub family_id : String
  pub parent_id : Option ℕ
  pub device_hash : Option String
  pub issued_ip : Option String
  pub expires_at : ℕ
  pub revoked_at : Option ℕ

abbrev pub refresh_token_dto : RefreshToken → RefreshTokenDto
refresh_token_dto t = record {
  id = t.id;
  user_id = t.user_id;
  token_hash = t.token_hash;
  family_id = t.family_id;
  parent_id = t.parent_id;
  device_hash = t.device_hash;
  issued_ip = t.issued_ip;
  expires_at = t.expires_at;
  revoked_at = t.revoked_at;
}

pub data Outcome : Type 0 where
  rotated missing expired reused binding_mismatch : Outcome

pub record RefreshRotationResult : Type 0 where
  pub outcome : Outcome
  pub refresh_token : Option RefreshTokenDto
  pub previous_issued_ip : Option String

-- The fields that a caller of `acreate` chooses.
pub record NewToken : Type 0 where
  pub user_id : ℕ
  pub token_hash : String
  pub family_id : String
  pub parent_id : Option ℕ
  pub expires_at : ℕ
  pub device_hash : Option String
  pub issued_ip : Option String

-- The arguments of `arotate`.
pub record Rotation : Type 0 where
  pub token_hash : String
  pub replacement_hash : String
  pub replacement_expires_at : ℕ
  pub rotated_at : ℕ
  pub presented_device_hash : Option String
  pub presented_ip : Option String

abbrev pub has_hash : String → RefreshToken → Bool
has_hash h t = str_eq t.token_hash h

-- `revoked_at__isnull=True`
abbrev pub is_active : RefreshToken → Bool
is_active t = is_none t.revoked_at

abbrev pub revoke_row : ℕ → RefreshToken → RefreshToken
revoke_row at t = record t { revoked_at = some at }

abbrev dto? : Option RefreshToken → Option RefreshTokenDto
dto? none = none
dto? (some t) = some (refresh_token_dto t)

unfoldable pub aget_by_hash : String → Action TokenTable (Option RefreshTokenDto)
aget_by_hash token_hash = gets (λ s. dto? (find (has_hash token_hash) s.rows))

abbrev pub new_row : ℕ → NewToken → RefreshToken
new_row id n = record {
  id = id;
  user_id = n.user_id;
  token_hash = n.token_hash;
  family_id = n.family_id;
  parent_id = n.parent_id;
  device_hash = n.device_hash;
  issued_ip = n.issued_ip;
  expires_at = n.expires_at;
  revoked_at = none;
}

-- `RefreshToken.objects.create`: `token_hash` is unique, and the key is the sequence's next value.
unfoldable pub insert_token : NewToken → Action TokenTable RefreshToken
insert_token n s = if any (has_hash n.token_hash) s.rows then (err integrity_error, s) else (
  ok (new_row s.next_id n),
  record { rows = s.rows ++ new_row s.next_id n ∷ []; next_id = s.next_id + 1 },
)

unfoldable pub acreate : NewToken → Action TokenTable RefreshTokenDto
unfolding insert_token
acreate n = do token ← insert_token n; pure (refresh_token_dto token)

-- `filter(…, revoked_at__isnull=True).update(revoked_at=…)`
unfoldable pub revoke_where : (RefreshToken → Bool) → ℕ → Action TokenTable (Unit {0})
revoke_where p at s =
    (ok tt, record s { rows = update_where (λ t. p t && is_active t) (revoke_row at) s.rows })

unfoldable pub arevoke : ℕ → ℕ → Action TokenTable (Unit {0})
unfolding revoke_where
arevoke token_id revoked_at = revoke_where (λ t. t.id == token_id) revoked_at

unfoldable pub arevoke_family : String → ℕ → Action TokenTable (Unit {0})
unfolding revoke_where
arevoke_family family_id revoked_at = revoke_where (λ t. str_eq t.family_id family_id) revoked_at

unfoldable pub arevoke_user : ℕ → ℕ → Action TokenTable (Unit {0})
unfolding revoke_where
arevoke_user user_id revoked_at = revoke_where (λ t. t.user_id == user_id) revoked_at

-- `refresh_token.revoked_at = …; refresh_token.save(update_fields=["revoked_at"])`
unfoldable pub save_revoked_at : ℕ → ℕ → Action TokenTable (Unit {0})
save_revoked_at id at s =
    (ok tt, record s { rows = update_where (λ t. t.id == id) (revoke_row at) s.rows })

-- `REFRESH_BIND_DEVICE and device_hash is not None and device_hash != presented`
abbrev pub is_mismatch : Bool → Option String → Option String → Bool
is_mismatch bind_device stored presented =
    bind_device && not (is_none stored) && not (opt_str_eq stored presented)

abbrev pub result_of : Outcome → Option RefreshToken → Option String → RefreshRotationResult
result_of o t ip = record { outcome = o; refresh_token = dto? t; previous_issued_ip = ip }

abbrev pub replacement_of : Rotation → RefreshToken → NewToken
replacement_of a t = record {
  user_id = t.user_id;
  token_hash = a.replacement_hash;
  family_id = t.family_id;
  parent_id = some t.id;
  expires_at = a.replacement_expires_at;
  device_hash = py_or t.device_hash a.presented_device_hash;
  issued_ip = a.presented_ip;
}

-- `_rotate` from the point where the row is known.
rotate_found : Bool → Rotation → RefreshToken → Action TokenTable RefreshRotationResult
unfolding revoke_where save_revoked_at insert_token
rotate_found bind_device a t =
    if not (is_active t)
    then (do
      revoke_where (λ r. str_eq r.family_id t.family_id) a.rotated_at
      pure (result_of reused (some t) none))
    else if leb t.expires_at a.rotated_at
    then pure (result_of expired none none)
    else if is_mismatch bind_device t.device_hash a.presented_device_hash
    then (do
      revoke_where (λ r. str_eq r.family_id t.family_id) a.rotated_at
      pure (result_of binding_mismatch (some t) none))
    else (do
      save_revoked_at t.id a.rotated_at
      replacement ← insert_token (replacement_of a t)
      pure (result_of rotated (some replacement) t.issued_ip))

rotate_row : Bool → Rotation → Option RefreshToken → Action TokenTable RefreshRotationResult
unfolding rotate_found
rotate_row bind_device a none = pure (result_of missing none none)
rotate_row bind_device a (some t) = rotate_found bind_device a t

-- `_rotate`: the row lock makes the whole method one step.
unfoldable pub rotate : Bool → Rotation → Action TokenTable RefreshRotationResult
unfolding rotate_row
rotate bind_device a s = rotate_row bind_device a (find (has_hash a.token_hash) s.rows) s

unfoldable pub arotate : Bool → Rotation → Action TokenTable RefreshRotationResult
unfolding rotate
arotate bind_device a = run_in_transaction (rotate bind_device a)

abbrev pub is_child_of : List RefreshToken → RefreshToken → Bool
is_child_of gone t = elim t.parent_id [ none ↦ false | some p ↦ any (λ r. r.id == p) gone ]

abbrev pub unparented : RefreshToken → RefreshToken
unparented t = record t { parent_id = none }

abbrev pub is_of_user : ℕ → RefreshToken → Bool
is_of_user user_id t = t.user_id == user_id

-- The foreign keys of the model when a user is deleted: `user` cascades, `parent` is set to null.
unfoldable pub cascade_user : ℕ → TokenTable → TokenTable
cascade_user user_id s = record s {
  rows =
      update_where (is_child_of (select (is_of_user user_id) s.rows)) unparented
        (select (λ t. not (is_of_user user_id t)) s.rows);
}
