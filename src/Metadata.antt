-- ===== src/Metadata.antt =====
-- The sanitizer of apps/audit/services.py: `sanitize_metadata`, `_sanitize_value` and
-- `_is_sensitive_metadata_key` with its regular expression.
pub mod Sanitized
use Prim.Native.Char.{code}
use Prim.Native.String as Text
use django_ninja_rbac_authen.Prelude.{
  ℕ, ◌+◌, ◌≡◌, refl, Bool, true, false, ◌&&◌, ◌||◌, Option, none, some, List, [], ◌∷◌, String, leb,
  ◌==◌, any, map, str_eq, if◌then◌else◌, ℤ,
}

-- The values that metadata holds. A list and a tuple are both `arr`.
mutual
  pub data Value : Type 0 where
    null : Value
    bool : Bool → Value
    int : ℤ → Value
    str : String → Value
    arr : Items → Value
    obj : Metadata → Value

  pub data Items : Type 0 where
    nil : Items
    cons : Value → Items → Items

  pub data Metadata : Type 0 where
    end : Metadata
    field : String → Value → Metadata → Metadata

-- The code points of a text.
abbrev codes : String → List ℕ
codes Text.[] = []
codes (Text.◌∷◌ c s) = code c ∷ codes s

abbrev is_lower : ℕ → Bool
is_lower c = leb b'a' c && leb c b'z'

abbrev is_upper : ℕ → Bool
is_upper c = leb b'A' c && leb c b'Z'

abbrev starts_upper : List ℕ → Bool
starts_upper [] = false
starts_upper (c ∷ _) = is_upper c

-- `re.sub(r"([a-z])([A-Z])", r"\1_\2", key)`
split_camel : List ℕ → List ℕ
split_camel [] = []
split_camel (c ∷ cs) =
    let rest = split_camel cs in if is_lower c && starts_upper cs then c ∷ b'_' ∷ rest else c ∷ rest

-- A character under `re.IGNORECASE`. Beside A to Z, Python takes İ and ı for i, ſ for s, and the
-- Kelvin sign for k.
fold_case : ℕ → ℕ
fold_case c =
    if is_upper c
    then c + 32
    else if c == 304 || c == 305
    then b'i'
    else if c == 383
    then b's'
    else if c == 8490
    then b'k'
    else c

-- `[_-]`
abbrev is_separator : ℕ → Bool
is_separator c = c == b'_' || c == b'-'

-- What is left behind a word that stands at the front.
strip_word : List ℕ → List ℕ → Option (List ℕ)
unfolding fold_case
strip_word [] cs = some cs
strip_word (w ∷ ws) [] = none
strip_word (w ∷ ws) (c ∷ cs) =
    let rest = strip_word ws cs in if fold_case c == w then rest else none

-- `(?:$|[_-])`; `$` also matches in front of a newline at the end.
abbrev ends_word : Option (List ℕ) → Bool
ends_word none = false
ends_word (some []) = true
ends_word (some (c ∷ [])) = c == 10 || is_separator c
ends_word (some (c ∷ _ ∷ _)) = is_separator c

abbrev sensitive_words : List (List ℕ)
sensitive_words = map codes ("password" ∷ "token" ∷ "secret" ∷ "authorization" ∷ "credential" ∷ [])

word_at : List ℕ → Bool
unfolding strip_word
word_at cs = any (λ w. ends_word (strip_word w cs)) sensitive_words

-- A separator with a word behind it, at any place.
word_behind : List ℕ → Bool
unfolding word_at
word_behind [] = false
word_behind (c ∷ cs) = (is_separator c && word_at cs) || word_behind cs

unfoldable pub is_sensitive_metadata_key : String → Bool
unfolding word_behind split_camel
is_sensitive_metadata_key key = let cs = split_camel (codes key) in word_at cs || word_behind cs

sensitive_keys :
    (is_sensitive_metadata_key "accessToken" ≡ true)
    × (is_sensitive_metadata_key "USER-PASSWORD_hash" ≡ true)
    × (is_sensitive_metadata_key "tokens" ≡ false)
    × (is_sensitive_metadata_key "family_id" ≡ false)
unfolding is_sensitive_metadata_key
sensitive_keys = (refl, refl, refl, refl)

-- The condition of the comprehension.
abbrev pub keep_unless : Bool → String → Value → Metadata → Metadata
keep_unless true k v m = m
keep_unless false k v m = field k v m

unfoldable mutual
  pub sanitize_metadata : Metadata → Metadata
  sanitize_metadata end = end
  sanitize_metadata (field k v m) =
      keep_unless (is_sensitive_metadata_key k) k (sanitize_value v) (sanitize_metadata m)

  pub sanitize_value : Value → Value
  sanitize_value null = null
  sanitize_value (bool b) = bool b
  sanitize_value (int n) = int n
  sanitize_value (str s) = str s
  sanitize_value (arr xs) = arr (sanitize_items xs)
  sanitize_value (obj m) = obj (sanitize_metadata m)

  pub sanitize_items : Items → Items
  sanitize_items nil = nil
  sanitize_items (cons v xs) = cons (sanitize_value v) (sanitize_items xs)

-- `metadata: Mapping | None`
abbrev pub sanitize_optional : Option Metadata → Metadata
sanitize_optional none = end
sanitize_optional (some m) = sanitize_metadata m

-- `d[key] = value`
unfoldable pub assign : String → Value → Metadata → Metadata
assign key value end = field key value end
assign key value (field k v m) =
    if str_eq k key then field k value m else field k v (assign key value m)

-- `d.get(key)`
unfoldable pub get : String → Metadata → Option Value
get key end = none
get key (field k v m) = if str_eq k key then some v else get key m
