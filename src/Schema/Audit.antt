-- ===== src/Schema/Audit.antt =====
-- apps/audit: its migration 0001 and the columns of `AuditLog` in models.py.
use django_ninja_rbac_authen.Prelude.{true, List, [], ◌∷◌}
use django_ninja_rbac_authen.Schema.{
  big_integer, char, email, date_time, ip_address, json, text, empty_dict, plain, nullable,
  with_default, Fields, auto_field, Index, Model, create_model, Migration,
}

abbrev created_log : Fields
created_log =
    auto_field
    ∷ ("created_at", record (plain (date_time true)) { db_index = true })
    ∷ ("action", plain (char 64))
    ∷ ("actor_id", nullable big_integer)
    ∷ ("actor_email", nullable (email 254))
    ∷ ("target_type", nullable (char 64))
    ∷ ("target_id", nullable (char 255))
    ∷ ("outcome", with_default (text "success") (char 16))
    ∷ ("ip", nullable ip_address)
    ∷ ("user_agent", nullable (char 512))
    ∷ ("metadata", with_default empty_dict json)
    ∷ []

abbrev created_indexes : List Index
created_indexes =
    record { fields = "actor_id" ∷ "created_at" ∷ []; name = "audit_actor_created_idx" }
    ∷ record { fields = "action" ∷ "created_at" ∷ []; name = "audit_action_created_idx" }
    ∷ []

abbrev pub audit_0001_initial : Migration
audit_0001_initial = record {
  initial = true;
  dependencies = [];
  operations =
      create_model "AuditLog"
        (record { fields = created_log; indexes = created_indexes; constraints = [] })
      ∷ [];
}

-- `AuditLog`
abbrev pub audit_log_model : Model
audit_log_model = record {
  fields =
      auto_field
      ∷ ("created_at", record (plain (date_time true)) { db_index = true })
      ∷ ("action", plain (char 64))
      ∷ ("actor_id", nullable big_integer)
      ∷ ("actor_email", nullable (email 254))
      ∷ ("target_type", nullable (char 64))
      ∷ ("target_id", nullable (char 255))
      ∷ ("outcome", with_default (text "success") (char 16))
      ∷ ("ip", nullable ip_address)
      ∷ ("user_agent", nullable (char 512))
      ∷ ("metadata", with_default empty_dict json)
      ∷ [];
  indexes =
      record { fields = "actor_id" ∷ "created_at" ∷ []; name = "audit_actor_created_idx" }
      ∷ record { fields = "action" ∷ "created_at" ∷ []; name = "audit_action_created_idx" }
      ∷ [];
  constraints = [];
}
