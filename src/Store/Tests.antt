-- ===== src/Store/Tests.antt =====
-- The login of the web process (canonical-web-server.rs/crates/canonical-store/src/lib.rs) on a concrete
-- answer of the catalogs.
use canonical_cloud.Base.{◌≡◌, text, text_eq, some, true, false, ok, ◌==◌, ◌⊎◌, ◌↔◌}
use canonical_cloud.Store.Roles.{Row, Database, runtime_server_role, verify_isolated_database_role}
use canonical_cloud.Store.Isolation.{IsIsolated, verify_isolated_database_role_iff}

abbrev web_role : Row
web_role = record {
  try_get_text = λ column. ok runtime_server_role;
  try_get_bool = λ column. ok (column == text "can_login");
}

abbrev database : Database
database = record { is_postgres = true; query_one = ok (some web_role) }

verify_isolated_database_role_iff_example :
    verify_isolated_database_role runtime_server_role (text "web runtime") database ≡ ok tt
    ↔ (database.is_postgres ≡ false)
      ⊎ ((row : Row) × (database.query_one ≡ ok (some row)) × IsIsolated runtime_server_role row)
verify_isolated_database_role_iff_example =
    verify_isolated_database_role_iff runtime_server_role (text "web runtime") database
