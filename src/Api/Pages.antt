-- ===== src/Api/Pages.antt =====
-- The pages of apps/authz/api/routers/admin_users.py: what a listing of users answers.
use django_ninja_rbac_authen.Prelude.{
  ℕ, ◌≤◌, ◌<◌, ◌≡◌, refl, sym, ap, ◌∙◌, Bool, true, false, inl, inr, Option, none, some, List, [],
  ◌∷◌, String, ℤ, pos, negsuc, arith, is_none, any, length, take, drop, length-take, Option-cases,
}
use django_ninja_rbac_authen.Errors.{schema_invalid}
use django_ninja_rbac_authen.Effects.{ok, err}
use django_ninja_rbac_authen.Platform.{Platform, Deployment}
use django_ninja_rbac_authen.World.{World}
use django_ninja_rbac_authen.Users.{User, alist, acount, dtos, user_dto_from_model}
use django_ninja_rbac_authen.Guard.{Principal, require_permission}
use django_ninja_rbac_authen.ClientIp.{IpLibrary}
use django_ninja_rbac_authen.AdminService
use django_ninja_rbac_authen.Api.Envelope.{Response, success_response, fine}
use django_ninja_rbac_authen.Api.Schemas.{UserOut, PageOut, email_out, user_out, traverse}
use django_ninja_rbac_authen.Api.AdminUsers.{
  clamp_offset, clamp_limit, page_out, pagination, list_users_view, list_users,
}
use django_ninja_rbac_authen.Api.Guards.{has_permission}

-- The offset that a request gets: the one it asks for, a negative one counting as 0.
abbrev pub IsOffset : ℤ → ℕ → Type 0
IsOffset (pos n) first = first ≡ n
IsOffset (negsuc _) first = first ≡ 0

-- The size of the page that a request gets: the limit that it asks for between 1 and 100, and the nearer
-- of the two otherwise.
abbrev pub IsLimit : ℤ → ℕ → Type 0
IsLimit (pos n) size = (n ≡ 0 → size ≡ 1) × (1 ≤ n → n ≤ 100 → size ≡ n) × (100 < n → size ≡ 100)
IsLimit (negsuc _) size = size ≡ 1

clamp_offset-of : (offset : ℤ) (first : ℕ) → IsOffset offset first → clamp_offset offset ≡ first
clamp_offset-of (pos n) first h = sym h
clamp_offset-of (negsuc n) first h = sym h

clamp_limit-of :
    (limit : ℤ) (size : ℕ)
    → IsLimit limit size
    → (clamp_limit limit ≡ size) × (1 ≤ size) × (size ≤ 100)
clamp_limit-of (pos n) size h = ground (arith, h)
clamp_limit-of (negsuc n) size h = ground (arith, h)

module _ (platform : Platform) where
  -- The response schema refuses the user's stored address.
  abbrev pub is_unprintable : User → Bool
  is_unprintable u = is_none (platform.email_str u.email)

  abbrev shown : User → String → UserOut
  shown u a = record {
    id = u.id;
    email = a;
    is_active = u.is_active;
    is_staff = u.is_staff;
    date_joined = u.date_joined;
  }

  -- The outputs are those of the rows, one by one and in their order, each with the row's address in the
  -- normal form that the response schema gives it.
  abbrev pub Shows : List User → List UserOut → Type 0
  Shows [] outs = outs ≡ []
  Shows (u ∷ us) outs =
      (a : String) × (rest : List UserOut) × (outs ≡ shown u a ∷ rest)
      × (platform.email_str u.email ≡ some a)
      × Shows us rest

  length-Shows : (us : List User) (outs : List UserOut) → Shows us outs → length outs ≡ length us
  length-Shows [] outs h = ap length h
  length-Shows (u ∷ us) outs (a, rest, e, _, more) = rw (e, length-Shows us rest more) refl

  user_out-shown :
      (u : User) (a : String)
      → platform.email_str u.email ≡ some a
      → user_out platform (user_dto_from_model u) ≡ ok (shown u a)
  unfolding user_out
  user_out-shown u a e = rw (email_out, e) refl

  user_out-refused :
      (u : User)
      → platform.email_str u.email ≡ none
      → user_out platform (user_dto_from_model u) ≡ err schema_invalid
  unfolding user_out
  user_out-refused u e = rw (email_out, e) refl

  traverse-printable :
      (us : List User)
      → any is_unprintable us ≡ false
      → (outs : List UserOut) × (traverse (user_out platform) (dtos us) ≡ ok outs) × Shows us outs
  unfolding traverse
  traverse-printable [] h = ([], refl, refl)
  traverse-printable (u ∷ us) h = elim (Option-cases (platform.email_str u.email)) [
    | inl e ↦ absurd (ground (arith, rw (any, is_unprintable, e) at h))
    | inr (a, e) ↦
        let (outs, read, shows) = traverse-printable us (rw (any, is_unprintable, e) at h) in
        (shown u a ∷ outs, rw (user_out-shown u a e, read) refl, (a, outs, refl, e, shows))
  ]

  traverse-unprintable :
      (us : List User)
      → any is_unprintable us ≡ true
      → traverse (user_out platform) (dtos us) ≡ err schema_invalid
  unfolding traverse
  traverse-unprintable [] h = absurd (ground (arith, h))
  traverse-unprintable (u ∷ us) h = elim (Option-cases (platform.email_str u.email)) [
    | inl e ↦ rw (user_out-refused u e) refl
    | inr (a, e) ↦
        rw (user_out-shown u a e, traverse-unprintable us (rw (any, is_unprintable, e) at h)) refl
  ]

module _ (d : Deployment) (ip : IpLibrary) (cidrs : List String) where
  -- The rows that a request for a page is about.
  abbrev pub page_rows : World d → ℤ → ℤ → List User
  page_rows w offset limit = take (clamp_limit limit) (drop (clamp_offset offset) w.db.users.rows)

  -- The page shows the rows from `first` on, `size` of them at most, and says how many users there are.
  abbrev pub IsPage : World d → ℕ → ℕ → PageOut UserOut → Type 0
  IsPage w first size page =
      Shows d.platform (take size (drop first w.db.users.rows)) page.items
      × (page.total ≡ length w.db.users.rows)
      × (page.offset ≡ first)
      × (page.limit ≡ size)
      × (1 ≤ size)
      × (size ≤ 100)
      × (length page.items ≤ size)

  list_users_admitted :
      (auth : Option Principal) (offset limit : ℤ) (w : World d)
      → has_permission "user.read" auth ≡ true
      → list_users d ip cidrs auth offset limit w ≡ list_users_view d ip cidrs offset limit w
  unfolding list_users require_permission
  list_users_admitted none offset limit w h = absurd (ground (arith, h))
  list_users_admitted (some p) offset limit w h = rw h refl

  -- If the caller has user.read and the response schema accepts the address of every user on the
  -- page, a listing answers with the requested rows in their order, each with its key, its address in
  -- the schema's normal form, its flags and its date, and with the number of all users, and changes
  -- nothing. The rows start at the offset, a negative one counting as 0, and are as many as the limit
  -- says, cut to between 1 and 100, at most.
  pub list_users-IsPage :
      (auth : Option Principal) (offset limit : ℤ) (first size : ℕ) (w : World d)
      → IsOffset offset first
      → IsLimit limit size
      → has_permission "user.read" auth ≡ true
      → any (is_unprintable d.platform) (take size (drop first w.db.users.rows)) ≡ false
      → (r : Response (PageOut UserOut)) × (page : PageOut UserOut) × (list_users d ip cidrs auth
            offset limit w
          ≡ (ok r, w))
        × (r.body.content ≡ some page)
        × IsPage w first size page
  unfolding list_users_view AdminService.list_users alist acount pagination
  list_users-IsPage auth offset limit first size w from counted allowed printable =
      let rows = take size (drop first w.db.users.rows) in
      let (outs, read, shows) = traverse-printable d.platform rows printable in
      let (cut, least, most) = clamp_limit-of limit size counted in
      let fits : length outs ≤ size = omega (
        arith,
        length-Shows d.platform rows outs shows,
        length-take size (drop first w.db.users.rows),
      ) in
      let page : PageOut UserOut = page_out outs (length w.db.users.rows) first size in
      (
        fine (success_response (some page) 200 "Users fetched."),
        page,
        list_users_admitted auth offset limit w allowed
            ∙ rw (clamp_offset-of offset first from, cut, read) refl,
        refl,
        (shows, refl, refl, refl, least, most, fits),
      )

  -- If the caller has user.read and the response schema refuses the address of one user on the
  -- page, the listing fails with the schema's error, and nothing changes.
  pub list_users_fails :
      (auth : Option Principal) (offset limit : ℤ) (w : World d)
      → has_permission "user.read" auth ≡ true
      → any (is_unprintable d.platform) (page_rows w offset limit) ≡ true
      → list_users d ip cidrs auth offset limit w ≡ (err schema_invalid, w)
  unfolding list_users_view AdminService.list_users alist acount pagination
  list_users_fails auth offset limit w allowed unprintable =
      list_users_admitted auth offset limit w allowed
      ∙ rw (traverse-unprintable d.platform (page_rows w offset limit) unprintable) refl
