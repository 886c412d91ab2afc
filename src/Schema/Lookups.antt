-- ===== src/Schema/Lookups.antt =====
-- Lists of fields as maps from names: when two of them have the same field under every name.
use django_ninja_rbac_authen.Prelude.{
  ◌≡◌, sym, ap, ◌∙◌, refl, subst, inl, inr, Option, none, some, List, [], ◌∷◌, ◌++◌, String, str_eq,
  arith, eq_iff, Bool-cases, Option-cases,
}
use django_ninja_rbac_authen.Schema.{Field, Fields, lookup}

-- What the second list has under the names of the first, and what the first has.
abbrev pub answers : Fields → Fields → List (Option Field)
answers [] gs = []
answers ((n, f) ∷ fs) gs = lookup n gs ∷ answers fs gs

abbrev pub entries : Fields → List (Option Field)
entries [] = []
entries ((n, f) ∷ fs) = some f ∷ entries fs

abbrev pub Covers : Fields → Fields → Type 0
Covers fs gs = answers fs gs ≡ entries fs

lookup-Covers :
    (fs gs : Fields) (name : String) (f : Field)
    → Covers fs gs
    → lookup name fs ≡ some f
    → lookup name gs ≡ some f
lookup-Covers [] gs name f c h = absurd (cc)
lookup-Covers ((n, g) ∷ fs) gs name f c h = elim (Bool-cases (str_eq n name)) [
  | inl e ↦
      subst (λ k. lookup k gs ≡ some f) ((eq_iff n name).0 e)
        (let first : lookup n gs ≡ some g = cc in first ∙ rw e at h)
  | inr e ↦ lookup-Covers fs gs name f (cc) (rw e at h)
]

-- Two lists that cover each other have the same field under every name.
pub lookup_ext :
    (fs gs : Fields)
    → Covers fs gs
    → Covers gs fs
    → (name : String) → lookup name fs ≡ lookup name gs
lookup_ext fs gs c d name = elim (Option-cases (lookup name fs)) [
  | inr (f, h) ↦ h ∙ sym (lookup-Covers fs gs name f c h)
  | inl none_fs ↦ elim (Option-cases (lookup name gs)) [
    | inl none_gs ↦ none_fs ∙ sym none_gs
    | inr (g, h) ↦ let k = lookup-Covers gs fs name g d h in absurd (cc)
  ]
]

abbrev or_else : Option Field → Option Field → Option Field
or_else none o = o
or_else (some f) o = some f

lookup-append :
    (fs gs : Fields) (name : String)
    → lookup name (fs ++ gs) ≡ or_else (lookup name fs) (lookup name gs)
lookup-append [] gs name = refl
lookup-append ((n, f) ∷ fs) gs name = ground (arith, lookup-append fs gs name)

-- What stands in front of some fields matters only by its lookups.
pub lookup-append_cong :
    (fs gs hs : Fields) (name : String)
    → lookup name fs ≡ lookup name gs
    → lookup name (fs ++ hs) ≡ lookup name (gs ++ hs)
lookup-append_cong fs gs hs name h =
    lookup-append fs hs name
    ∙ ap (λ o. or_else o (lookup name hs)) h
    ∙ sym (lookup-append gs hs name)
