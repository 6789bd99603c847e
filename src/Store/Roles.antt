-- ===== src/Store/Roles.antt =====
-- `verify_isolated_database_role` of canonical-web-server.rs/crates/canonical-store/src/lib.rs: which
-- login a process starts with. What the catalogs answer to its query is a parameter.
use canonical_cloud.Base.{
  List, [], ◌∷◌, ◌++◌, Text, text, text_eq, Option, Bool, true, false, not, ◌||◌, if◌then◌else◌,
  Result, ok, err, ok_or, ◌==◌, is_empty, ◌>>=◌, ◌>>◌,
}
use canonical_cloud.Quote.Client.{join}

-- The error of the program, or one of the database's own.
pub data DbErr : Type 0 where
  custom driver : Text → DbErr

-- A row of the query: its columns as texts and as truth values.
pub record Row : Type 0 where
  pub try_get_text : Text → Result DbErr Text
  pub try_get_bool : Text → Result DbErr Bool

pub record Database : Type 0 where
  pub is_postgres : Bool
  pub query_one : Result DbErr (Option Row)

abbrev pub runtime_server_role : Text
runtime_server_role = text "canonical_web_server"

abbrev pub session_revoker_role : Text
session_revoker_role = text "canonical_session_revoker"

abbrev pub admin_server_role : Text
admin_server_role = text "canonical_admin_server"

-- The columns that must all be false, and what they stand for.
abbrev pub unsafe_columns : List (Text × Text)
unsafe_columns =
    (text "is_superuser", text "SUPERUSER")
    ∷ (text "can_create_database", text "CREATEDB")
    ∷ (text "can_create_role", text "CREATEROLE")
    ∷ (text "inherits_roles", text "INHERIT")
    ∷ (text "can_replicate", text "REPLICATION")
    ∷ (text "bypasses_rls", text "BYPASSRLS")
    ∷ (text "has_memberships_or_members", text "role membership/member")
    ∷ (text "owns_current_database", text "current database ownership")
    ∷ (text "owns_application_schema", text "public/auth schema ownership")
    ∷ (text "owns_application_relation", text "public/auth relation ownership")
    ∷ (text "owns_application_function", text "public/auth function ownership")
    ∷ []

unfoldable pub push_if : Bool → Text → List Text → List Text
push_if true description properties = properties ++ (description ∷ [])
push_if false description properties = properties

-- The loop over the columns, with the properties found so far.
unfoldable pub unsafe_of : Row → List (Text × Text) → List Text → Result DbErr (List Text)
unsafe_of row [] properties = ok properties
unsafe_of row ((column, description) ∷ rest) properties =
    row.try_get_bool column >>= λ found. unsafe_of row rest (push_if found description properties)

module _ (expected_role process_name : Text) where
  unfoldable pub same_role : Text → Text → Result DbErr (Unit {0})
  same_role role login_role =
      if not (role == expected_role) || not (login_role == expected_role)
      then err (
          custom (
            process_name
            ++ (text " requires database login and current role "
                ++ (expected_role
                    ++ (text "; connected as login "
                        ++ (login_role ++ (text " with current role " ++ role)))))))
      else ok tt

  unfoldable pub no_unsafe : List Text → Result DbErr (Unit {0})
  no_unsafe properties =
      if not (is_empty properties)
      then err (
          custom (
            process_name
            ++ (text " database role "
                ++ (expected_role
                    ++ (text " violates its least-privilege boundary: "
                        ++ join (text ", ") properties)))))
      else ok tt

  unfoldable pub verify_row : Row → Result DbErr (Unit {0})
  verify_row row = do
    role ← row.try_get_text (text "database_role")
    login_role ← row.try_get_text (text "login_role")
    same_role role login_role
    can_login ← row.try_get_bool (text "can_login")
    properties ← unsafe_of row unsafe_columns (push_if (not can_login) (text "NOLOGIN") [])
    no_unsafe properties

  unfoldable pub verify_isolated_database_role : Database → Result DbErr (Unit {0})
  verify_isolated_database_role db =
      if not db.is_postgres
      then ok tt
      else db.query_one >>= λ found.
          ok_or found (custom (text "database role query returned no row")) >>= verify_row

unfoldable pub verify_runtime_database_role : Database → Result DbErr (Unit {0})
verify_runtime_database_role =
    verify_isolated_database_role runtime_server_role (text "web runtime")

unfoldable pub verify_session_revoker_database_role : Database → Result DbErr (Unit {0})
verify_session_revoker_database_role =
    verify_isolated_database_role session_revoker_role (text "session revoker")

unfoldable pub verify_admin_database_role : Database → Result DbErr (Unit {0})
verify_admin_database_role = verify_isolated_database_role admin_server_role (text "admin runtime")
