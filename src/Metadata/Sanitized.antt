-- ===== src/Metadata/Sanitized.antt =====
-- What the sanitizer guarantees of its result.
use django_ninja_rbac_authen.Prelude.{
  ◌≡◌, refl, ap, Bool, true, false, Option, none, some, String, arith, inl, inr, Bool-cases, eq_iff,
  if◌then◌else◌,
}
use django_ninja_rbac_authen.Metadata.{
  Value, null, bool, int, str, arr, obj, Items, nil, cons, Metadata, end, field,
  is_sensitive_metadata_key, keep_unless, sanitize_metadata, sanitize_value, sanitize_items, get,
}

-- No key of the value, at any depth, names a credential.
abbrev mutual
  pub IsClean : Metadata → Type 0
  IsClean end = Unit
  IsClean (field k v m) = (is_sensitive_metadata_key k ≡ false) × IsCleanValue v × IsClean m

  pub IsCleanValue : Value → Type 0
  IsCleanValue null = Unit
  IsCleanValue (bool b) = Unit
  IsCleanValue (int n) = Unit
  IsCleanValue (str s) = Unit
  IsCleanValue (arr xs) = AreCleanItems xs
  IsCleanValue (obj m) = IsClean m

  pub AreCleanItems : Items → Type 0
  AreCleanItems nil = Unit
  AreCleanItems (cons v xs) = IsCleanValue v × AreCleanItems xs

keep-IsClean :
    (k : String) (v : Value) (kept : Metadata)
    → IsCleanValue v
    → IsClean kept
    → IsClean (keep_unless (is_sensitive_metadata_key k) k v kept)
keep-IsClean k v kept cv cm = elim (Bool-cases (is_sensitive_metadata_key k)) [
  | inl e ↦ rw e cm
  | inr e ↦ rw e (e, cv, cm)
]

mutual
  unfolding sanitize_metadata

  IsClean-metadata : (m : Metadata) → IsClean (sanitize_metadata m)
  IsClean-metadata end = tt
  IsClean-metadata (field k v m) =
      keep-IsClean k (sanitize_value v) (sanitize_metadata m) (clean_value v) (IsClean-metadata m)

  clean_value : (v : Value) → IsCleanValue (sanitize_value v)
  clean_value null = tt
  clean_value (bool b) = tt
  clean_value (int n) = tt
  clean_value (str s) = tt
  clean_value (arr xs) = clean_items xs
  clean_value (obj m) = IsClean-metadata m

  clean_items : (xs : Items) → AreCleanItems (sanitize_items xs)
  clean_items nil = tt
  clean_items (cons v xs) = (clean_value v, clean_items xs)

-- A clean value passes through the sanitizer as it is.
mutual
  unfolding sanitize_metadata

  unchanged_metadata : (m : Metadata) → IsClean m → sanitize_metadata m ≡ m
  unchanged_metadata end h = refl
  unchanged_metadata (field k v m) h = cc (
    ap (λ b. keep_unless b k (sanitize_value v) (sanitize_metadata m)) h.0,
    unchanged_value v h.1,
    unchanged_metadata m h.2,
  )

  unchanged_value : (v : Value) → IsCleanValue v → sanitize_value v ≡ v
  unchanged_value null h = refl
  unchanged_value (bool b) h = refl
  unchanged_value (int n) h = refl
  unchanged_value (str s) h = refl
  unchanged_value (arr xs) h = ap arr (unchanged_items xs h)
  unchanged_value (obj m) h = ap obj (unchanged_metadata m h)

  unchanged_items : (xs : Items) → AreCleanItems xs → sanitize_items xs ≡ xs
  unchanged_items nil h = refl
  unchanged_items (cons v xs) h = cc (unchanged_value v h.0, unchanged_items xs h.1)

abbrev pub cleaned : Option Value → Option Value
cleaned none = none
cleaned (some v) = some (sanitize_value v)

-- The result holds no sensitive key at any depth, and a second pass changes nothing.
pub sanitize_metadata-IsClean :
    (m : Metadata)
    → IsClean (sanitize_metadata m)
      × (sanitize_metadata (sanitize_metadata m) ≡ sanitize_metadata m)
sanitize_metadata-IsClean m =
    (IsClean-metadata m, unchanged_metadata (sanitize_metadata m) (IsClean-metadata m))

get-keep_unless :
    (k j : String) (sensitive : Bool) (v : Value) (m : Metadata)
    → is_sensitive_metadata_key j ≡ sensitive
    → get k (sanitize_metadata m)
      ≡ (if is_sensitive_metadata_key k then none else cleaned (get k m))
    → get k (keep_unless sensitive j (sanitize_value v) (sanitize_metadata m))
      ≡ (if is_sensitive_metadata_key k then none else cleaned (get k (field j v m)))
unfolding get
get-keep_unless k j true v m e ih = ground (arith, eq_iff j k, e, ap is_sensitive_metadata_key)
get-keep_unless k j false v m e ih = ground (arith, eq_iff j k, e)

-- A key is dropped exactly when it is sensitive; any other keeps its value, sanitized.
pub get-sanitize_metadata :
    (k : String) (m : Metadata)
    → get k (sanitize_metadata m)
      ≡ (if is_sensitive_metadata_key k then none else cleaned (get k m))
unfolding get sanitize_metadata
get-sanitize_metadata k end = ground arith
get-sanitize_metadata k (field j v m) =
    get-keep_unless k j (is_sensitive_metadata_key j) v m refl (get-sanitize_metadata k m)
