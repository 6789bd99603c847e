-- ===== src/Session/Tests.antt =====
-- Runs of the session service (canonical-web-server.rs/crates/canonical-session/src/lib.rs) on
-- concrete sessions, with a cipher and a codec that leave their input as it is.
use canonical_cloud.Base.{
  ◌<◌, Text, Bool, is_some, ◌+◌, ◌≤◌, ◌≡◌, ◌≢◌, ◌⊎◌, inl, refl, sym, arith, none, some, [], ◌∷◌,
  text, text_eq, nat_eq, text_beq, true, false, ok, err, length,
}
use canonical_cloud.Auth.{AuthContext, AuthTokens, unavailable, seconds}
use canonical_cloud.Auth.Token.{TokenLibs, validated_session_id, split, jwt_segments}
use canonical_cloud.Session.Model.{
  i32_max, WebSession, RefreshClaim, RevocationClaim, Rows, find_by_id, update, on_row,
}
use canonical_cloud.Session.Policy.{
  refresh_poll_initial, resolve_rotated_session_id, refresh_lease_is_active, validate_model,
  saturating_suc, context_from_model,
}
use canonical_cloud.Session.Cipher.{
  CipherLibs, encrypt, decrypt, hash_token, decrypt_parts, split_at_checked, decrypt-encrypt,
}
use canonical_cloud.Session.Refresh.{
  mark_revocation, marked, claim_refresh, claim_refresh_row, take_lease, leased,
}
use canonical_cloud.Session.Revocation.{
  Libs, queue_revocation, claim_revocation, claim_revocation_row, claim_decrypted, claimed_identity,
  claim_of, decrypt_pair, not_claimable, fenced_off, claimed_row,
}
use canonical_cloud.Session.Reconcile.{prune, overwritten}
use canonical_cloud.Session.Create.{new_session}
use canonical_cloud.Session.Steps.{IsTable}
use canonical_cloud.Session.Reach.{
  Reach, here, next, claims, queues, creates, Reach-IsTable, Reach-revoked,
}
use canonical_cloud.Session.Attempts.{Overtaken, claim-Overtaken, claim_numbers_grow}
use canonical_cloud.Session.Logout.{Refused, logout_is_final}
use canonical_cloud.Session.Delays.{IsPrunable, prune_exact}
use canonical_cloud.Session.World.{
  World, Service, ◌>>=◌, transact, failing, after, attempt, pure, commit, utc_now,
}
use canonical_cloud.Session.Flows.{attempt_revocation, revoke}
use canonical_cloud.Session.Durable.{revoke_is_final}
use canonical_cloud.Session.Refreshing.{poll_loop, poll_fuel}
use canonical_cloud.Session.Polling.{poll_loop-total}
use canonical_cloud.Session.Spending.{refreshes, sign_outs}
use canonical_cloud.Session.Calls.{attempt_revocation-calls}

abbrev pub plain_cipher : CipherLibs
plain_cipher = record {
  seal = λ nonce bytes. some bytes;
  unseal = λ nonce bytes. some bytes;
  encode = λ bytes. bytes;
  decode = λ s. some s;
  as_bytes = λ s. s;
  from_utf8 = λ bytes. some bytes;
  digest = λ bytes. bytes;
}

abbrev no_tokens : TokenLibs
no_tokens = record {
  decode_no_pad = λ s. none;
  decode_padded = λ s. none;
  parse_json = λ s. none;
  parse_uuid = λ s. none;
}

abbrev pub libs : Libs
libs = record { tokens = no_tokens; cipher = plain_cipher }

abbrev pub session : WebSession
session = record {
  id_hash = text "s";
  user_id = 1;
  email = text "a@b.c";
  supabase_session_id = some 5;
  encrypted_access_token = text "nonce_nonce_access";
  encrypted_refresh_token = text "nonce_nonce_refresh";
  access_expires_at = seconds 90;
  refresh_lease_id = none;
  refresh_lease_expires_at = none;
  csrf_token = text "csrf";
  created_at = 0;
  updated_at = 0;
  expires_at = seconds 1000;
  revoked_at = none;
  revocation_pending_at = none;
  revocation_next_attempt_at = none;
  revocation_attempts = 0;
  upstream_revoked_at = none;
  revocation_abandoned_at = none;
  revocation_failure_kind = none;
}

abbrev pub rows : Rows
rows = session ∷ []

-- The session under a refresh lease, which 9 holds until second 70.
abbrev leased_session : WebSession
leased_session = record session {
  refresh_lease_id = some 9;
  refresh_lease_expires_at = some (seconds 70);
}

-- The session behind a logout at second 50.
abbrev pub revoked_session : WebSession
revoked_session = record session {
  revoked_at = some (seconds 50);
  revocation_pending_at = some (seconds 50);
  revocation_next_attempt_at = some (seconds 50);
}

-- Its logout, confirmed.
abbrev done_session : WebSession
done_session = record session {
  revoked_at = some (seconds 50);
  upstream_revoked_at = some (seconds 60);
  revocation_attempts = 1;
}

abbrev pub claim : RefreshClaim
claim = record {
  id_hash = text "s";
  lease_id = 7;
  user_id = 1;
  supabase_session_id = some 5;
  refresh_token = text "refresh";
}

abbrev logout : RevocationClaim
logout = record {
  id_hash = text "s";
  access_token = text "access";
  refresh_token = text "refresh";
  access_expires_at = seconds 90;
  supabase_session_id = some 5;
  attempts = 1;
  user_id = 1;
}

abbrev pub tokens : AuthTokens
tokens = record {
  access_token = text "access";
  refresh_token = text "refresh";
  expires_at = seconds 3600;
  user = record { id = 1; email = some (text "a@b.c") };
}

abbrev pub service : Service
service = record {
  libs = libs;
  refresh = λ calls token. err unavailable;
  sign_out = λ calls token. ok tt;
  user_for_token = λ calls token. ok record { id = 1; email = none };
  nonce = λ n. [];
  new_v4 = λ n. n;
}

-- While the logout waits, another replica takes a refresh lease.
abbrev pub world : World
world = record {
  rows = rows;
  utc_now = seconds 50;
  database_now = seconds 50;
  calls = [];
  draws = 0;
  events =
      (record {
        fails = false;
        utc_elapsed = seconds 1;
        db_elapsed = seconds 1;
        others = λ a. (claim_refresh plain_cipher (text "s") 7 (seconds 50) (seconds 50) a).1;
      })
      ∷ [];
}

-- Every identifier has been drawn.
abbrev pub all_drawn : Text → Bool
all_drawn id = true

pub rows-IsTable : IsTable rows
unfolding find_by_id
rows-IsTable = record { unique = (refl, tt); valid = (ground arith, tt) }

done-IsTable : IsTable (done_session ∷ [])
unfolding find_by_id
done-IsTable = record { unique = (refl, tt); valid = (ground arith, tt) }

found : find_by_id (text "s") rows ≡ some session
unfolding text_beq find_by_id
found = refl

revoke_is_final_example : Refused plain_cipher claim (revoke service (text "s") world).1.rows
unfolding revoke ◌>>=◌ transact failing queue_revocation on_row find_by_id after claim_refresh
    text_beq mark_revocation attempt pure commit claim_refresh_row validate_model
    refresh_lease_is_active take_lease decrypt split_at_checked decrypt_parts update leased
    hash_token
revoke_is_final_example =
    revoke_is_final service all_drawn (text "s") claim world (revoke service (text "s") world).1
      (revoke service (text "s") world).1.rows rows-IsTable refl
      (λ a. next here (claims (text "s") 7 (seconds 50) (seconds 50) a), tt)
      (unfold hash_token in refl) refl here

logout_is_final_example :
    Refused plain_cipher claim (queue_revocation (text "s") (seconds 50) (seconds 50) rows).1
logout_is_final_example =
    logout_is_final libs all_drawn claim (seconds 50) (seconds 50) rows
      (queue_revocation (text "s") (seconds 50) (seconds 50) rows).1 rows-IsTable refl here

abbrev started : Rows
started =
    new_session (text "s") tokens (some 5) (text "a") (text "r") (text "csrf") 0 (seconds 1000) ∷ []

Reach-IsTable_example : IsTable (queue_revocation (text "s") (seconds 50) (seconds 50) started).1
unfolding find_by_id
Reach-IsTable_example = Reach-IsTable {libs = libs} (
    next
      (next here (
        creates (text "s") (text "csrf") (text "a") (text "r") tokens (some 5) 0 (seconds 1000) []
          refl refl))
      (queues (text "s") (seconds 50) (seconds 50) started))

Reach-revoked_example :
    (find_by_id
        (text "s")
        (claim_refresh plain_cipher (text "s") 7 (seconds 51) (seconds 51) (revoked_session ∷ [])).1
      ≡ none)
    ⊎ ((m : WebSession) × (find_by_id
            (text "s")
            (claim_refresh plain_cipher
              (text "s")
              7
              (seconds 51)
              (seconds 51)
              (revoked_session ∷ [])).1
          ≡ some m)
        × (is_some m.revoked_at ≡ true)
        × (m.refresh_lease_id ≡ none))
unfolding text_beq find_by_id
Reach-revoked_example =
    Reach-revoked {libs = libs} {drawn = all_drawn} (text "s") revoked_session
      (next here (claims (text "s") 7 (seconds 51) (seconds 51) (revoked_session ∷ [])))
      (record { unique = (refl, tt); valid = (ground arith, tt) }) refl refl refl

claim-Overtaken_example : Overtaken logout (done_session ∷ [])
unfolding text_beq find_by_id
claim-Overtaken_example =
    claim-Overtaken libs all_drawn logout (done_session ∷ []) (done_session ∷ []) done_session
      done-IsTable refl refl (inl refl) here

-- The second claim of a logout, when the first has run out.
abbrev second_claim : RevocationClaim
second_claim = record logout { attempts = 2 }

claim_numbers_grow_example :
    ((m : WebSession) × (find_by_id
          (text "s")
          (claim_revocation libs (text "s") 0 (seconds 50) (revoked_session ∷ [])).1
        ≡ some m)
      × (fenced_off logout m ≡ false))
    × ((logout.attempts ≡ i32_max)
        ⊎ (logout.attempts < second_claim.attempts)
          × Overtaken logout
              (claim_revocation libs
                (text "s")
                0
                (seconds 200)
                (claim_revocation libs (text "s") 0 (seconds 50) (revoked_session ∷ [])).1).1)
unfolding claim_revocation on_row find_by_id text_beq claim_revocation_row not_claimable
    decrypt_pair decrypt split_at_checked decrypt_parts claim_decrypted claimed_identity
    validated_session_id jwt_segments split resolve_rotated_session_id claim_of saturating_suc
    claimed_row update
claim_numbers_grow_example =
    claim_numbers_grow libs all_drawn (text "s") 0 (seconds 50) 0 (seconds 200)
      (revoked_session ∷ []) _ logout second_claim
      (record { unique = (refl, tt); valid = (ground arith, tt) }) refl refl here refl

prune_exact_example :
    (IsPrunable (seconds 700000) done_session
      × (find_by_id (text "s") (prune (seconds 700000) (done_session ∷ [])).1 ≡ none))
    ⊎ ((¬ IsPrunable (seconds 700000) done_session)
        × (find_by_id (text "s") (prune (seconds 700000) (done_session ∷ [])).1
            ≡ some done_session))
unfolding find_by_id text_beq
prune_exact_example =
    prune_exact (seconds 700000) (done_session ∷ []) (text "s") done_session (refl, tt) refl

decrypt-encrypt_example : decrypt plain_cipher (text "nonce_nonce_access") ≡ ok (text "access")
unfolding encrypt length
decrypt-encrypt_example =
    decrypt-encrypt plain_cipher (text "nonce_nonce_") (text "access") (text "nonce_nonce_access")
      (record {
        unseal-seal = λ nonce plain sealed e. sym e;
        decode-encode = λ bytes. refl;
        from_utf8-as_bytes = λ s. refl;
      })
      refl refl

poll_loop-total_example :
    (poll_loop service poll_fuel (text "s") (seconds 72) refresh_poll_initial world).0 ≢ ok none
poll_loop-total_example = poll_loop-total service (text "s") (seconds 72) world (omega arith)

attempt_revocation-calls_example :
    (refreshes (attempt_revocation service (text "s") world).1.calls ≤ 1 + refreshes world.calls)
    × (sign_outs (attempt_revocation service (text "s") world).1.calls ≤ 2 + sign_outs world.calls)
attempt_revocation-calls_example = attempt_revocation-calls service (text "s") world

-- A session whose access token is good for a while, and its context.
abbrev signed_in : World
signed_in = record world { rows = (record session { access_expires_at = seconds 500 }) ∷ [] }

abbrev owner : AuthContext
owner = context_from_model (record session { access_expires_at = seconds 500 })

-- A reconciliation that had selected a row before its logout was confirmed puts the logout back on the
-- list of those that are due.
reopened_by_stale_selection :
    ((overwritten (seconds 60) session done_session).revocation_pending_at ≡ some (seconds 60))
    × (is_some (overwritten (seconds 60) session done_session).upstream_revoked_at ≡ true)
unfolding overwritten marked
reopened_by_stale_selection = (refl, refl)
