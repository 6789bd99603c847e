-- ===== src/Session/Genuine.antt =====
-- The attempt numbers of the claims that a revocation works with
-- (canonical-web-server.rs/crates/canonical-session/src/lib.rs).
use canonical_cloud.Base.{
  ℕ, ◌<◌, ◌≡◌, refl, Option, none, some, Text, Result, ok, err, Bool-cases, Option-cases, inl, inr,
  arith,
}
use canonical_cloud.Auth.{Uuid, AuthTokens}
use canonical_cloud.Session.Model.{WebSession, SessionError, RevocationClaim, Rows, find_by_id}
use canonical_cloud.Session.Policy.{saturating_suc}
use canonical_cloud.Session.Rows.{on_row_missing, on_row_fst}
use canonical_cloud.Session.Revocation.{
  Libs, claim_revocation, claim_revocation_row, persist_rotation, rotated_claim, fenced_off,
}
use canonical_cloud.Session.Flows.{RevocationRefreshFailure}
use canonical_cloud.Session.Attempts.{claim_given}
use canonical_cloud.Session.Guarantee.{Post}

-- A claim counts its attempt.
abbrev pub IsGenuine : RevocationClaim → Type 0
IsGenuine claim = 0 < claim.attempts

abbrev pub GenuineSome : Option RevocationClaim → Type 0
GenuineSome none = Unit
GenuineSome (some claim) = IsGenuine claim

abbrev pub GenuineOk : Result RevocationRefreshFailure RevocationClaim → Type 0
GenuineOk (ok claim) = IsGenuine claim
GenuineOk (err e) = Unit

given-GenuineSome :
    (libs : Libs) (id : Text) (now : ℕ) (m : WebSession)
    (r : Result SessionError (Option RevocationClaim))
    → (claim_revocation_row libs id now m).0 ≡ r
    → Post GenuineSome r
unfolding saturating_suc
given-GenuineSome libs id now m (err e) p = tt
given-GenuineSome libs id now m (ok none) p = tt
given-GenuineSome libs id now m (ok (some c)) p =
    let (n, i, a, w) = claim_given libs id now m c p in omega (arith, a)

pub claim_revocation-GenuineSome :
    (libs : Libs) (id : Text) (utc now : ℕ) (rows : Rows)
    → Post GenuineSome (claim_revocation libs id utc now rows).0
unfolding claim_revocation
claim_revocation-GenuineSome libs id utc now rows = elim (Option-cases (find_by_id id rows)) [
  | inl e ↦ rw (on_row_missing id (ok none) (claim_revocation_row libs id now) rows e) tt
  | inr (m, e) ↦
      rw (on_row_fst id (ok none) (claim_revocation_row libs id now) rows m e)
        (given-GenuineSome libs id now m _ refl)
]

pub persist_rotation-IsGenuine :
    (claim : RevocationClaim) (tokens : AuthTokens) (session_id : Option Uuid)
    (access refresh : Text) (utc now : ℕ) (rows : Rows)
    → IsGenuine claim
    → Post IsGenuine (persist_rotation claim tokens session_id access refresh utc now rows).0
unfolding persist_rotation rotated_claim
persist_rotation-IsGenuine claim tokens session_id access refresh utc now rows g =
    elim (Option-cases (find_by_id claim.id_hash rows)) [
      | inl e ↦ rw (on_row_missing claim.id_hash _ _ rows e) tt
      | inr (m, e) ↦
          rw (on_row_fst claim.id_hash _ _ rows m e)
            (elim (Bool-cases (fenced_off claim m)) [ inl f ↦ rw f tt | inr f ↦ rw f g ])
    ]
