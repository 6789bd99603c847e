-- ===== src/Store/Isolation.antt =====
-- What `verify_isolated_database_role` (canonical-web-server.rs/crates/canonical-store/src/lib.rs) lets a
-- process start with.
use canonical_cloud.Base.{
  ◌≡◌, refl, List, [], ◌∷◌, Text, text, text_eq, Option, none, some, Bool, true, false, not, Result,
  ok, err, ◌>>=◌, ◌>>◌, All, ◌⊎◌, ◌↔◌, inl, inr, arith, eq_refl,
}
use canonical_cloud.Store.Roles.{
  DbErr, Row, Database, unsafe_columns, push_if, unsafe_of, same_role, no_unsafe, verify_row,
  verify_isolated_database_role,
}

-- The login and the current role are the expected one, which may log in, and has none of the eleven
-- attributes, memberships and ownerships.
pub record IsIsolated (expected_role : Text) (row : Row) : Type 0 where
  pub role : row.try_get_text (text "database_role") ≡ ok expected_role
  pub login : row.try_get_text (text "login_role") ≡ ok expected_role
  pub can_login : row.try_get_bool (text "can_login") ≡ ok true
  pub is_superuser : row.try_get_bool (text "is_superuser") ≡ ok false
  pub can_create_database : row.try_get_bool (text "can_create_database") ≡ ok false
  pub can_create_role : row.try_get_bool (text "can_create_role") ≡ ok false
  pub inherits_roles : row.try_get_bool (text "inherits_roles") ≡ ok false
  pub can_replicate : row.try_get_bool (text "can_replicate") ≡ ok false
  pub bypasses_rls : row.try_get_bool (text "bypasses_rls") ≡ ok false
  pub has_memberships_or_members : row.try_get_bool (text "has_memberships_or_members") ≡ ok false
  pub owns_current_database : row.try_get_bool (text "owns_current_database") ≡ ok false
  pub owns_application_schema : row.try_get_bool (text "owns_application_schema") ≡ ok false
  pub owns_application_relation : row.try_get_bool (text "owns_application_relation") ≡ ok false
  pub owns_application_function : row.try_get_bool (text "owns_application_function") ≡ ok false

push_if-none :
    (b : Bool) (description : Text) (properties : List Text)
    → push_if b description properties ≡ []
    → (b ≡ false) × (properties ≡ [])
unfolding push_if
push_if-none true description [] h = cc h
push_if-none true description (p ∷ properties) h = cc h
push_if-none false description properties h = (refl, h)

module _ (row : Row) where
  safe_step :
      (column description : Text) (rest : List (Text × Text)) (properties : List Text)
      (r : Result DbErr Bool)
      → ((ps : List Text)
          → unsafe_of row rest ps ≡ ok []
          → (ps ≡ []) × All (λ c. row.try_get_bool c.0 ≡ ok false) rest)
      → (r >>= λ found. unsafe_of row rest (push_if found description properties)) ≡ ok []
      → (r ≡ ok false) × (properties ≡ []) × All (λ c. row.try_get_bool c.0 ≡ ok false) rest
  safe_step column description rest properties (err e) ih h = cc h
  safe_step column description rest properties (ok b) ih h =
      let (none_found, safe) = ih (push_if b description properties) h in
      let (off, empty) = push_if-none b description properties none_found in (cc off, empty, safe)

  unsafe_of-none :
      (columns : List (Text × Text)) (properties : List Text)
      → unsafe_of row columns properties ≡ ok []
      → (properties ≡ []) × All (λ c. row.try_get_bool c.0 ≡ ok false) columns
  unfolding unsafe_of
  unsafe_of-none [] properties h = (cc h, tt)
  unsafe_of-none ((column, description) ∷ rest) properties h =
      let (off, empty, safe) =
        safe_step column description rest properties (row.try_get_bool column) (unsafe_of-none rest)
          h in
      (empty, (off, safe))

  none-unsafe_of :
      (columns : List (Text × Text))
      → All (λ c. row.try_get_bool c.0 ≡ ok false) columns
      → unsafe_of row columns [] ≡ ok []
  unfolding unsafe_of push_if
  none-unsafe_of [] h = refl
  none-unsafe_of ((column, description) ∷ rest) (off, safe) = rw off (none-unsafe_of rest safe)

no_rights :
    {expected_role : Text} {row : Row}
    → IsIsolated expected_role row
    → All (λ c. row.try_get_bool c.0 ≡ ok false) unsafe_columns
no_rights s = (
  s.is_superuser,
  (
    s.can_create_database,
    (
      s.can_create_role,
      (
        s.inherits_roles,
        (
          s.can_replicate,
          (
            s.bypasses_rls,
            (
              s.has_memberships_or_members,
              (
                s.owns_current_database,
                (
                  s.owns_application_schema,
                  (s.owns_application_relation, (s.owns_application_function, tt)),
                ),
              ),
            ),
          ),
        ),
      ),
    ),
  ),
)

module _ (expected_role process_name : Text) (row : Row) where
  properties_sound :
      (can_login : Bool) (r : Result DbErr (List Text))
      → (unsafe_of row unsafe_columns (push_if (not can_login) (text "NOLOGIN") []) ≡ r)
      → (r >>= no_unsafe expected_role process_name) ≡ ok tt
      → (can_login ≡ true) × All (λ c. row.try_get_bool c.0 ≡ ok false) unsafe_columns
  unfolding no_unsafe
  properties_sound can_login (err e) found h = cc h
  properties_sound can_login (ok (p ∷ properties)) found h = cc h
  properties_sound can_login (ok []) found h =
      let (none_found, safe) = unsafe_of-none row unsafe_columns _ found in
      let (off, empty) = push_if-none (not can_login) (text "NOLOGIN") [] none_found in
      (ground arith, safe)

  can_login_sound :
      (r : Result DbErr Bool)
      → (r >>= λ can_login.
          unsafe_of row unsafe_columns (push_if (not can_login) (text "NOLOGIN") [])
          >>= no_unsafe expected_role process_name)
        ≡ ok tt
      → (r ≡ ok true) × All (λ c. row.try_get_bool c.0 ≡ ok false) unsafe_columns
  can_login_sound (err e) h = cc h
  can_login_sound (ok can_login) h =
      let (allowed, safe) = properties_sound can_login _ refl h in (cc allowed, safe)

  roles_sound :
      (a b : Result DbErr Text) (r : Result DbErr (Unit {0}))
      → (a >>= λ role.
          b >>= λ login_role. same_role expected_role process_name role login_role >> r)
        ≡ ok tt
      → (a ≡ ok expected_role) × (b ≡ ok expected_role) × (r ≡ ok tt)
  unfolding same_role
  roles_sound (err e) b r h = cc h
  roles_sound (ok role) (err e) r h = cc h
  roles_sound (ok role) (ok login_role) r h =
      ground (arith, text_eq.same_iff role expected_role, text_eq.same_iff login_role expected_role)

  verify_row_sound :
      verify_row expected_role process_name row ≡ ok tt → IsIsolated expected_role row
  unfolding verify_row
  verify_row_sound h =
      let (role, login, rest) =
        roles_sound (row.try_get_text (text "database_role")) (row.try_get_text (text "login_role"))
          _ h in
      let (can_login, safe) = can_login_sound (row.try_get_bool (text "can_login")) rest in
      let (c1, (c2, (c3, (c4, (c5, (c6, (c7, (c8, (c9, (c10, (c11, _))))))))))) = safe in
      record {
        role = role;
        login = login;
        can_login = can_login;
        is_superuser = c1;
        can_create_database = c2;
        can_create_role = c3;
        inherits_roles = c4;
        can_replicate = c5;
        bypasses_rls = c6;
        has_memberships_or_members = c7;
        owns_current_database = c8;
        owns_application_schema = c9;
        owns_application_relation = c10;
        owns_application_function = c11;
      }

  verify_row_complete :
      IsIsolated expected_role row → verify_row expected_role process_name row ≡ ok tt
  unfolding verify_row same_role no_unsafe push_if
  verify_row_complete s =
      rw
        (
          s.role,
          s.login,
          s.can_login,
          eq_refl expected_role,
          none-unsafe_of row unsafe_columns (no_rights s),
        )
        refl

module _ (expected_role process_name : Text) where
  answered_sound :
      (is_postgres : Bool) (answer : Result DbErr (Option Row))
      → verify_isolated_database_role expected_role process_name
          (record { is_postgres = is_postgres; query_one = answer })
        ≡ ok tt
      → (is_postgres ≡ false)
        ⊎ ((row : Row) × (answer ≡ ok (some row)) × IsIsolated expected_role row)
  unfolding verify_isolated_database_role
  answered_sound false answer h = inl refl
  answered_sound true (err e) h = cc h
  answered_sound true (ok none) h = cc h
  answered_sound true (ok (some row)) h =
      inr (row, refl, verify_row_sound expected_role process_name row h)

  answered_complete :
      (is_postgres : Bool) (answer : Result DbErr (Option Row))
      → (is_postgres ≡ false)
        ⊎ ((row : Row) × (answer ≡ ok (some row)) × IsIsolated expected_role row)
      → verify_isolated_database_role expected_role process_name
          (record { is_postgres = is_postgres; query_one = answer })
        ≡ ok tt
  unfolding verify_isolated_database_role
  answered_complete false answer h = refl
  answered_complete true answer (inl h) = cc h
  answered_complete true answer (inr (row, found, s)) =
      rw found (verify_row_complete expected_role process_name row s)

-- The verification of the database login passes exactly if the database is not PostgreSQL, or answers
-- with a row whose login and current role are the expected one, which may log in, is no superuser,
-- creates no databases or roles, inherits no rights, does not replicate or bypass row security, has no
-- memberships or members, and owns neither the database nor a schema, relation or function of the
-- application; a column that cannot be read fails it.
pub verify_isolated_database_role_iff :
    (expected_role process_name : Text) (db : Database)
    → (verify_isolated_database_role expected_role process_name db ≡ ok tt
        ↔ (db.is_postgres ≡ false)
          ⊎ ((row : Row) × (db.query_one ≡ ok (some row)) × IsIsolated expected_role row))
verify_isolated_database_role_iff expected_role process_name db = (
  answered_sound expected_role process_name db.is_postgres db.query_one,
  λ h. answered_complete expected_role process_name db.is_postgres db.query_one h,
)
