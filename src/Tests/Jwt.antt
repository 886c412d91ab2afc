-- ===== src/Tests/Jwt.antt =====
-- A token library that writes the claims and the secret in plain text.
use Prim.Native.Char.{Char}
use Prim.Native.String as Text
use django_ninja_rbac_authen.Prelude.{
  ℕ, ◌*◌, ◌/◌, ◌≤◌, ◌<◌, ◌≡◌, refl, ap, ◌&&◌, Option, none, some, List, [], ◌∷◌, String, str_eq,
  eq_refl, arith, ltb, leb, if◌then◌else◌, ◌∙◌, ℤ, pos_part,
}
use django_ninja_rbac_authen.Errors.{Error, invalid_token_error}
use django_ninja_rbac_authen.Effects.{Result, ok, err}
use django_ninja_rbac_authen.Decimal.{str_of, int_of, int_of-str_of}
use django_ninja_rbac_authen.Metadata.{Metadata, int, str, arr, end, field}
use django_ninja_rbac_authen.Platform.{Payload, JwtLibrary, texts, claims_of}

-- A text in front of another: a pair of characters for each of its own, and a pair for its end.
quote_text : String → String → String
quote_text Text.[] rest = Text.◌∷◌ "e" (Text.◌∷◌ "e" rest)
quote_text (Text.◌∷◌ c s) rest = Text.◌∷◌ "c" (Text.◌∷◌ c (quote_text s rest))

pub quote_all : List String → String
unfolding quote_text
quote_all [] = ""
quote_all (s ∷ ss) = quote_text s (quote_all ss)

push : Char → List String → List String
push c [] = []
push c (s ∷ ss) = Text.◌∷◌ c s ∷ ss

pub unquote : String → List String
unfolding push
unquote Text.[] = []
unquote (Text.◌∷◌ x Text.[]) = []
unquote (Text.◌∷◌ x (Text.◌∷◌ c s)) =
    let rest = unquote s in if str_eq (Text.◌∷◌ x "") "e" then "" ∷ rest else push c rest

unquote-quote_text : (s rest : String) → unquote (quote_text s rest) ≡ s ∷ unquote rest
unfolding unquote quote_text
unquote-quote_text Text.[] rest = refl
unquote-quote_text (Text.◌∷◌ c s) rest = rw (unquote-quote_text s rest) refl

unquote-quote_all : (ss : List String) → unquote (quote_all ss) ≡ ss
unfolding quote_all unquote
unquote-quote_all [] = refl
unquote-quote_all (s ∷ ss) =
    unquote-quote_text s (quote_all ss) ∙ ap (λ r. s ∷ r) (unquote-quote_all ss)

pub record Parts : Type 0 where
  pub claims : Metadata
  pub issued : ℕ
  pub until : ℕ
  pub secret : String

abbrev claims_with : String → ℤ → ℤ → String → List String → List String → Metadata
claims_with sub exp iat jti roles perms = field "sub" (str sub) (
    field "exp" (int exp) (
      field "iat" (int iat) (
        field "jti" (str jti)
          (field "roles" (arr (texts roles)) (field "perms" (arr (texts perms)) end)))))

abbrev timed : Option ℤ → Option ℤ → (ℤ → ℤ → Parts) → Option Parts
timed (some exp) (some iat) f = some (f exp iat)
timed (some exp) none f = none
timed none iat f = none

pub parts_of : List String → Option Parts
unfolding unquote
parts_of (sub ∷ exp ∷ iat ∷ jti ∷ roles ∷ perms ∷ secret ∷ []) =
    timed (int_of exp) (int_of iat) (λ e i. record {
      claims = claims_with sub e i jti (unquote roles) (unquote perms);
      issued = pos_part i * 1000000;
      until = pos_part e * 1000000;
      secret = secret;
    })
parts_of _ = none

pub judge : Option Parts → String → ℕ → Result Metadata
judge none secret now = err invalid_token_error
judge (some p) secret now =
    if str_eq p.secret secret && leb p.issued now && ltb now p.until
    then ok p.claims
    else err invalid_token_error

abbrev plain_encode : Payload → String → String
plain_encode p secret = quote_all (
    p.sub
    ∷ str_of (p.exp / 1000000)
    ∷ str_of (p.iat / 1000000)
    ∷ p.jti
    ∷ quote_all p.roles
    ∷ quote_all p.perms
    ∷ secret
    ∷ [])

abbrev plain_decode : String → String → ℕ → Result Metadata
plain_decode token secret now = judge (parts_of (unquote token)) secret now

parts_of-encode :
    (p : Payload) (secret : String)
    → parts_of (unquote (plain_encode p secret))
      ≡ some (record {
        claims = claims_of p;
        issued = p.iat / 1000000 * 1000000;
        until = p.exp / 1000000 * 1000000;
        secret = secret;
      })
unfolding parts_of
parts_of-encode p secret =
    rw
      (
        unquote-quote_all _,
        int_of-str_of (p.exp / 1000000),
        int_of-str_of (p.iat / 1000000),
        unquote-quote_all p.roles,
        unquote-quote_all p.perms,
      )
      refl

pub judge_refusal :
    (o : Option Parts) (secret : String) (now : ℕ) (e : Error)
    → judge o secret now ≡ err e
    → e ≡ invalid_token_error
unfolding judge
judge_refusal none secret now e h = ground (arith, h)
judge_refusal (some p) secret now e h = ground (arith, h)

pub plain_decode-encode :
    (p : Payload) (secret : String) (now : ℕ)
    → p.iat / 1000000 * 1000000 ≤ now
    → now < p.exp / 1000000 * 1000000
    → plain_decode (plain_encode p secret) secret now ≡ ok (claims_of p)
unfolding judge
plain_decode-encode p secret now early late =
    rw (parts_of-encode p secret, eq_refl secret) (ground (arith, early, late))

pub plain_decode-encode_expired :
    (p : Payload) (secret : String) (now : ℕ)
    → p.exp / 1000000 * 1000000 ≤ now
    → plain_decode (plain_encode p secret) secret now ≡ err invalid_token_error
unfolding judge
plain_decode-encode_expired p secret now late =
    rw (parts_of-encode p secret, eq_refl secret) (ground (arith, late))

abbrev pub plain_jwt : JwtLibrary
plain_jwt = record {
  encode = plain_encode;
  decode = plain_decode;
  decode-encode = plain_decode-encode;
  decode-encode_expired = plain_decode-encode_expired;
  decode_refusal = λ token secret now e. judge_refusal (parts_of (unquote token)) secret now e;
}
