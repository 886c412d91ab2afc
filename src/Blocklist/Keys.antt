-- ===== src/Blocklist/Keys.antt =====
-- The Redis keys of different tokens and users differ (`_token_key`, `_user_epoch_key`).
use Prim.Native.Char.{Char, code}
use text.Mathlib.TextLemmas.{append_cancel_left, cons-append, head-eq_of_cons-eq}
use django_ninja_rbac_authen.Prelude.{ℕ, ◌≡◌, ◌≢◌, ap, sym, ◌∙◌, String, arith}
use django_ninja_rbac_authen.Decimal.{str_of, str_of-injective}
use django_ninja_rbac_authen.Blocklist.{token_key, user_epoch_key}

pub token_key-injective : (a b : String) → token_key a ≡ token_key b → a ≡ b
token_key-injective a b e = append_cancel_left "bl:jti:" a b e

pub user_epoch_key-injective : (a b : ℕ) → user_epoch_key a ≡ user_epoch_key b → a ≡ b
unfolding user_epoch_key
user_epoch_key-injective a b e =
    str_of-injective a b (append_cancel_left "user_epoch:" (str_of a) (str_of b) e)

-- Their first letters differ.
pub token_key-ne-user_epoch_key : (a : String) (u : ℕ) → token_key a ≢ user_epoch_key u
unfolding user_epoch_key
token_key-ne-user_epoch_key a u e =
    let same : ◌≡◌ {A = Char} "b" "u" =
      head-eq_of_cons-eq
        (sym (cons-append "b" "l:jti:" a) ∙ e ∙ cons-append "u" "ser_epoch:" (str_of u)) in
    let codes : ◌≡◌ {A = ℕ} 98 117 = ap code same in absurd (omega arith)
