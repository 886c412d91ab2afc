-- ===== src/Config/Boot.antt =====
-- What a process that has read its settings can rely on.
use django_ninja_rbac_authen.Prelude.{
  size, ℕ, ◌*◌, ◌≤◌, ◌≡◌, ◌≢◌, refl, ap, sym, subst, inl, inr, true, Option, none, some, List, [],
  String, str_eq, eq_iff, arith, leb, Bool-cases,
}
use django_ninja_rbac_authen.Effects.{Result, ok, err}
use django_ninja_rbac_authen.Platform.{Deployment}
use django_ninja_rbac_authen.AuthService.{access_token_ttl_seconds}
use django_ninja_rbac_authen.Config.{parse_ttl}
use django_ninja_rbac_authen.Config.Ttl.{IsDuration, parse_ttl-IsDuration}
use django_ninja_rbac_authen.Config.Environment.{
  Environment, Parsers, AppSettings, Fields, built, checked, parse_list, as_invalid, ◌&◌, required,
  defaulted, secret, every, validate_trusted_proxy_cidrs, validate_ttl, fields, distinct_secrets,
  load, settings_of,
}

&-ok :
    {A B : Type 0} (r : Result A) (r' : Result B) (a : A) (b : B)
    → (r & r') ≡ ok (a, b)
    → (r ≡ ok a) × (r' ≡ ok b)
&-ok (ok x) (ok y) a b h = (ground (arith, h), ground (arith, h))
&-ok (ok x) (err e) a b h = absurd (ground (arith, h))
&-ok (err e) r a b h = absurd (ground (arith, h))

as_invalid-ok : {A : Type 0} (r : Result A) (a : A) → as_invalid r ≡ ok a → r ≡ ok a
as_invalid-ok (ok b) a h = h
as_invalid-ok (err e) a h = absurd (ground (arith, h))

ttl-IsDuration :
    (o : Option String) (s : String) (us : ℕ)
    → defaulted o (parse_ttl s) validate_ttl ≡ ok us
    → IsDuration us
ttl-IsDuration none s us h = parse_ttl-IsDuration s us h
ttl-IsDuration (some t) s us h = parse_ttl-IsDuration t us (as_invalid-ok (parse_ttl t) us h)

whole_seconds :
    (d : Deployment)
    → IsDuration d.settings.access_token_lifetime
    → d.settings.access_token_lifetime ≡ access_token_ttl_seconds d * 1000000
whole_seconds d (minutes, e, pos, _) = ground (arith, e, pos)

secret-ok : (o : Option String) (s : String) → required o secret ≡ ok s → 32 ≤ size s
unfolding secret
secret-ok none s h = absurd (ground (arith, h))
secret-ok (some t) s h = elim (Bool-cases (leb 32 (size t))) [
  | inl long ↦ ground (arith, long, rw (required, secret, long) at h)
  | inr short ↦ absurd (ground (arith, rw (required, secret, short) at h))
]

-- A setting that has passed the checks of `Settings`.
abbrev pub IsSound : Parsers → AppSettings → Type 0
IsSound parsers s =
    (32 ≤ size s.django_secret_key)
    × (32 ≤ size s.jwt_secret)
    × (s.django_secret_key ≢ s.jwt_secret)
    × IsDuration s.access_ttl
    × IsDuration s.refresh_ttl
    × (every (λ cidr. parsers.is_network cidr) s.trusted_proxy_cidrs ≡ true)

ok-inj : {A : Type 0} (a b : A) → ok a ≡ ok b → a ≡ b
ok-inj a b h = ground (arith, h)

cidrs-ok :
    (parsers : Parsers) (o : Option String) (cidrs : List String)
    → defaulted o (ok []) (validate_trusted_proxy_cidrs parsers) ≡ ok cidrs
    → every (λ cidr. parsers.is_network cidr) cidrs ≡ true
unfolding validate_trusted_proxy_cidrs
cidrs-ok parsers none cidrs h =
    subst (λ l. every (λ cidr. parsers.is_network cidr) l ≡ true) (ok-inj [] cidrs h) refl
cidrs-ok parsers (some t) cidrs h =
    elim (Bool-cases (every (λ cidr. parsers.is_network cidr) (parse_list t))) [
      | inl good ↦
          subst (λ l. every (λ cidr. parsers.is_network cidr) l ≡ true)
            (ok-inj (parse_list t) cidrs (rw (defaulted, validate_trusted_proxy_cidrs, good) at h))
            good
      | inr bad ↦ absurd (ground (arith, rw (defaulted, validate_trusted_proxy_cidrs, bad) at h))
    ]

distinct_secrets-ok :
    (built s : AppSettings)
    → distinct_secrets built ≡ ok s
    → (built.django_secret_key ≢ built.jwt_secret) × (built ≡ s)
distinct_secrets-ok built s h =
    elim (Bool-cases (str_eq built.django_secret_key built.jwt_secret)) [
      | inl same ↦ absurd (ground (arith, rw (distinct_secrets, same) at h))
      | inr differ ↦ (
        ground (arith, differ, eq_iff built.django_secret_key built.jwt_secret),
        ground (arith, rw (distinct_secrets, differ) at h),
      )
    ]

checked-IsSound :
    (parsers : Parsers) (env : Environment) (s : AppSettings) (r : Result Fields)
    → fields parsers env ≡ r
    → checked env r ≡ ok s
    → IsSound parsers s
checked-IsSound parsers env s (err e) read h = absurd (ground (arith, h))
checked-IsSound parsers env s (ok (url, ((key, jwt), ((access, refresh), ((device, ip), cidrs)))))
      read h =
    let (_, rest) = &-ok _ _ url _ read in
    let (keys, rest') = &-ok _ _ (key, jwt) _ rest in
    let (ttls, rest'') = &-ok _ _ (access, refresh) _ rest' in
    let (_, cidrs_read) = &-ok _ _ (device, ip) cidrs rest'' in
    let (key_read, jwt_read) = &-ok _ _ key jwt keys in
    let (access_read, refresh_read) = &-ok _ _ access refresh ttls in
    let (differ, same) =
      distinct_secrets-ok
        (built env (url, ((key, jwt), ((access, refresh), ((device, ip), cidrs))))) s h in
    subst (IsSound parsers) same (
      secret-ok env.django_secret_key key key_read,
      secret-ok env.jwt_secret jwt jwt_read,
      differ,
      ttl-IsDuration env.access_ttl "15m" access access_read,
      ttl-IsDuration env.refresh_ttl "7d" refresh refresh_read,
      cidrs-ok parsers env.trusted_proxy_cidrs cidrs cidrs_read,
    )

pub load-IsSound :
    (parsers : Parsers) (env : Environment) (s : AppSettings)
    → load parsers env ≡ ok s
    → IsSound parsers s
unfolding load
load-IsSound parsers env s h = checked-IsSound parsers env s (fields parsers env) refl h

-- Where the settings could be read from the environment, both secrets have 32 characters or more
-- and differ, both lifetimes are a positive number of whole minutes of 999999999 days at most, and
-- every trusted network was accepted; a deployment with these settings has a lifetime of access
-- tokens that is exactly the number of seconds for which it revokes them.
pub boot-IsSound :
    (parsers : Parsers) (env : Environment) (s : AppSettings) (d : Deployment)
    → load parsers env ≡ ok s
    → d.settings ≡ settings_of s
    → IsSound parsers s × (d.settings.access_token_lifetime ≡ access_token_ttl_seconds d * 1000000)
boot-IsSound parsers env s d h same =
    let sound : IsSound parsers s = load-IsSound parsers env s h in
    (
      sound,
      whole_seconds d (subst IsDuration (sym (ap (λ r. r.access_token_lifetime) same)) sound.3),
    )
