-- ===== src/Jwt/RoundTrip.antt =====
-- An access token reads back as the claims that it was issued with, while it lives.
use django_ninja_rbac_authen.Prelude.{
  ℕ, ◌*◌, ◌/◌, ◌≤◌, ◌<◌, ◌≡◌, ◌≢◌, refl, false, List, [], ◌∷◌, String, str_eq, eq_iff, arith, pos,
}
use django_ninja_rbac_authen.Errors.{raised, invalid_token}
use django_ninja_rbac_authen.Effects.{ok, err}
use django_ninja_rbac_authen.Platform.{Payload, JwtLibrary, claims_of, texts}
use django_ninja_rbac_authen.Jwt.{
  AccessTokenClaims, text_items, from_timestamp, parse_claims, decode_access_token,
}

text_items-texts : (ss : List String) → text_items (texts ss) ≡ ok ss
unfolding text_items
text_items-texts [] = refl
text_items-texts (s ∷ ss) = rw (text_items-texts ss) refl

abbrev pub last_second : ℕ
last_second = 253402300799

from_timestamp-pos : (n : ℕ) → n ≤ last_second → from_timestamp (pos n) ≡ ok (pos n)
unfolding from_timestamp
from_timestamp-pos n h = ground arith

not_empty : (s : String) → s ≢ "" → str_eq s "" ≡ false
not_empty s h = ground (arith, eq_iff s "")

-- What `decode_access_token` returns for a payload: instants cut to whole seconds, the rest as it was.
abbrev pub claims_read : Payload → AccessTokenClaims
claims_read p = record {
  subject = p.sub;
  expires_at = pos (p.exp / 1000000);
  issued_at = pos (p.iat / 1000000);
  token_id = p.jti;
  roles = p.roles;
  permissions = p.perms;
}

parse-claims_of :
    (p : Payload)
    → p.sub ≢ ""
    → p.jti ≢ ""
    → p.iat / 1000000 ≤ last_second
    → p.exp / 1000000 ≤ last_second
    → parse_claims (claims_of p) ≡ ok (claims_read p)
unfolding parse_claims
parse-claims_of p s j i e =
    rw
      (
        not_empty p.sub s,
        not_empty p.jti j,
        text_items-texts p.roles,
        text_items-texts p.perms,
        from_timestamp-pos (p.exp / 1000000) e,
        from_timestamp-pos (p.iat / 1000000) i,
      )
      refl

-- A payload that a token can carry and give back.
pub record IsCarried (p : Payload) : Type 0 where
  pub subject : p.sub ≢ ""
  pub token_id : p.jti ≢ ""
  pub issued : p.iat / 1000000 ≤ last_second
  pub expires : p.exp / 1000000 ≤ last_second

module _ (jwt : JwtLibrary) where
  open jwt use {encode, decode-encode, decode-encode_expired, decode_refusal}

  -- A token that was encoded under the secret, with a subject and an identifier that are not empty and
  -- with instants up to the year 9999, decodes to its claims from its issue until the second of its expiry.
  pub decode-encode_access_token :
      (p : Payload) (secret : String) (now : ℕ)
      → IsCarried p
      → p.iat ≤ now
      → now < p.exp / 1000000 * 1000000
      → decode_access_token jwt (encode p secret) secret now ≡ ok (claims_read p)
  unfolding decode_access_token
  decode-encode_access_token p secret now c h live =
      rw
        (
          decode-encode p secret now (omega arith) live,
          parse-claims_of p c.subject c.token_id c.issued c.expires,
        )
        refl

  pub decode-encode_expired_token :
      (p : Payload) (secret : String) (now : ℕ)
      → p.exp / 1000000 * 1000000 ≤ now
      → decode_access_token jwt (encode p secret) secret now ≡ err (raised invalid_token)
  unfolding decode_access_token
  decode-encode_expired_token p secret now late = rw (decode-encode_expired p secret now late) refl
