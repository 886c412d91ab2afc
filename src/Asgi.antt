-- ===== src/Asgi.antt =====
-- config/asgi.py: the lifespan protocol. Other scopes are handed to Django.
use django_ninja_rbac_authen.Prelude.{ℕ, suc, ◌≡◌, refl, Bool, true, false, List, [], ◌∷◌}

-- The types of messages that the server sends to the application.
pub data Message : Type 0 where
  lifespan_startup lifespan_shutdown other_message : Message

pub data Event : Type 0 where
  startup_complete startup_failed shutdown_complete : Event

-- What a connection to the database comes to; another exception ends the application.
pub data Attempt : Type 0 where
  connected operational_error other_error : Attempt

-- The application returned, raised, or waits for the next message.
pub data Ending : Type 0 where
  returned raised waiting : Ending

abbrev pub and_then : Event → List Event × Ending → List Event × Ending
and_then e (es, ending) = (e ∷ es, ending)

module _ (database : ℕ → Attempt) where
  abbrev pub on_startup : Attempt → List Event × Ending → List Event × Ending
  on_startup connected rest = and_then startup_complete rest
  on_startup operational_error rest = (startup_failed ∷ [], returned)
  on_startup other_error rest = ([], raised)

  -- `application` in the lifespan scope, on the messages that arrive; the n-th startup makes the n-th
  -- attempt to connect.
  unfoldable pub lifespan : ℕ → List Message → List Event × Ending
  lifespan n [] = ([], waiting)
  lifespan n (lifespan_startup ∷ ms) =
      let rest = lifespan (suc n) ms in on_startup (database n) rest
  lifespan n (lifespan_shutdown ∷ ms) = (shutdown_complete ∷ [], returned)
  lifespan n (other_message ∷ ms) = lifespan n ms

-- A run in which a failed startup or the shutdown is reported once, as the last event, and only when the
-- application returns.
abbrev pub is_protocol : List Event × Ending → Bool
is_protocol ([], returned) = false
is_protocol ([], ending) = true
is_protocol (startup_complete ∷ es, ending) = is_protocol (es, ending)
is_protocol (startup_failed ∷ [], returned) = true
is_protocol (shutdown_complete ∷ [], returned) = true
is_protocol _ = false

on_startup-is_protocol :
    (database : ℕ → Attempt) (a : Attempt) (r : List Event × Ending)
    → is_protocol r ≡ true
    → is_protocol (on_startup database a r) ≡ true
on_startup-is_protocol database connected (es, ending) h = h
on_startup-is_protocol database operational_error r h = refl
on_startup-is_protocol database other_error r h = refl

-- Every run of the application keeps to that protocol.
pub lifespan-is_protocol :
    (database : ℕ → Attempt) (n : ℕ) (ms : List Message)
    → is_protocol (lifespan database n ms) ≡ true
unfolding lifespan
lifespan-is_protocol database n [] = refl
lifespan-is_protocol database n (lifespan_startup ∷ ms) =
    on_startup-is_protocol database (database n) (lifespan database (suc n) ms)
      (lifespan-is_protocol database (suc n) ms)
lifespan-is_protocol database n (lifespan_shutdown ∷ ms) = refl
lifespan-is_protocol database n (other_message ∷ ms) = lifespan-is_protocol database n ms
