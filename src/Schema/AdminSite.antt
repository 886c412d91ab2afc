-- ===== src/Schema/AdminSite.antt =====
-- apps/accounts/admin.py: the names by which `UserAdmin` shows a user.
use django_ninja_rbac_authen.Prelude.{
  ◌≡◌, refl, sym, Bool, true, ◌&&◌, not, is_none, List, [], ◌∷◌, ◌++◌, String,
}
use django_ninja_rbac_authen.Schema.{Fields, lookup}
use django_ninja_rbac_authen.Schema.Accounts.{documented_base, user_model}
use django_ninja_rbac_authen.Schema.Agreement.{IsDocumented, SameModel-user}

abbrev ordering : List String
ordering = "email" ∷ []

abbrev list_display : List String
list_display = "email" ∷ "is_staff" ∷ "is_active" ∷ []

abbrev search_fields : List String
search_fields = "email" ∷ []

abbrev fieldsets : List (List String)
fieldsets =
    ("email" ∷ "password" ∷ [])
    ∷ ("is_active" ∷ "is_staff" ∷ "is_superuser" ∷ "groups" ∷ "user_permissions" ∷ [])
    ∷ ("last_login" ∷ "date_joined" ∷ [])
    ∷ []

-- The fields of the form for a new user; `password1` and `password2` are Django's own.
abbrev add_fieldsets : List String
add_fieldsets = "email" ∷ "password1" ∷ "password2" ∷ "is_active" ∷ "is_staff" ∷ []

abbrev concat : List (List String) → List String
concat [] = []
concat (xs ∷ xss) = xs ++ concat xss

-- Every name is the name of a field.
abbrev all_known : List String → Fields → Bool
all_known [] fs = true
all_known (n ∷ ns) fs = not (is_none (lookup n fs)) && all_known ns fs

abbrev shown : List String
shown = ordering ++ (list_display ++ (search_fields ++ concat fieldsets))

all_known-eq :
    (ns : List String) (fs gs : Fields)
    → ((name : String) → lookup name fs ≡ lookup name gs)
    → all_known ns fs ≡ all_known ns gs
all_known-eq [] fs gs h = refl
all_known-eq (n ∷ ns) fs gs h = rw (h n, all_known-eq ns fs gs h) refl

-- The admin site shows fields that `User` has, if its base classes have their documented fields.
shown-all_known :
    (inherited : Fields)
    → IsDocumented inherited
    → all_known shown (user_model inherited).fields ≡ true
shown-all_known inherited base =
    all_known-eq shown (user_model inherited).fields (user_model documented_base).fields
      (λ name. sym ((SameModel-user inherited base).fields name))
