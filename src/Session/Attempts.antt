-- ===== src/Session/Attempts.antt =====
-- The claims of a logout attempt (canonical-web-server.rs/crates/canonical-session/src/lib.rs): their
-- numbers, and the fence against one that has been overtaken.
use mathlib.Core.Option.{some-injective}
use canonical_cloud.Base.{
  min, ltb, subst, Bool-cases, ℕ, ◌+◌, ◌≤◌, ◌<◌, ◌≡◌, refl, sym, ◌∙◌, Option, none, some, Text,
  Bool, true, false, ok, err, arith, inl, inr, ◌⊎◌, Option-cases,
}
use canonical_cloud.Auth.{Uuid, AuthTokens}
use canonical_cloud.Session.Model.{
  i32_max, WebSession, unauthorized, RevocationClaim, Rows, find_by_id,
}
use canonical_cloud.Session.Policy.{saturating_suc}
use canonical_cloud.Session.Rows.{on_row_missing, on_row_found, on_row_fst, on_row_writes}
use canonical_cloud.Session.Evolution.{Evolves, is_settled}
use canonical_cloud.Session.Revocation.{
  Libs, claim_revocation, claim_revocation_row, not_claimable, claim_decrypted, claimed_row,
  claim_of, persist_rotation, confirm_revocation, abandon_revocation, defer_revocation, fenced_off,
}
use canonical_cloud.Session.Steps.{IsTable}
use canonical_cloud.Session.Reach.{Reach, Reach-Retains, Step-Retains, attempts}

-- What the four transactions of a claim answer and leave behind when its fence is shut.
abbrev pub Overtaken : RevocationClaim → Rows → Type 0
Overtaken claim rows =
    ((tokens : AuthTokens) (session_id : Option Uuid) (access refresh : Text) (utc_now now : ℕ)
      → persist_rotation claim tokens session_id access refresh utc_now now rows
        ≡ (err unauthorized, rows))
    × ((utc_now now : ℕ) → confirm_revocation claim utc_now now rows ≡ (ok tt, rows))
    × ((kind : Text) (utc_now now : ℕ)
        → abandon_revocation claim kind utc_now now rows ≡ (ok tt, rows))
    × ((utc_now now : ℕ) → defer_revocation claim utc_now now rows ≡ (ok tt, rows))

fence_shut :
    (claim : RevocationClaim) (rows : Rows) (m : WebSession)
    → find_by_id claim.id_hash rows ≡ some m
    → fenced_off claim m ≡ true
    → Overtaken claim rows
unfolding persist_rotation confirm_revocation abandon_revocation defer_revocation
fence_shut claim rows m e f = (
  λ tokens session_id access refresh utc_now now.
      rw (on_row_found claim.id_hash _ _ rows m e) (rw f),
  λ utc_now now. rw (on_row_found claim.id_hash _ _ rows m e) (rw f),
  λ kind utc_now now. rw (on_row_found claim.id_hash _ _ rows m e) (rw f),
  λ utc_now now. rw (on_row_found claim.id_hash _ _ rows m e) (rw f),
)

row_gone :
    (claim : RevocationClaim) (rows : Rows)
    → find_by_id claim.id_hash rows ≡ none
    → Overtaken claim rows
unfolding persist_rotation confirm_revocation abandon_revocation defer_revocation
row_gone claim rows e = (
  λ tokens session_id access refresh utc_now now. on_row_missing claim.id_hash _ _ rows e,
  λ utc_now now. on_row_missing claim.id_hash _ _ rows e,
  λ kind utc_now now. on_row_missing claim.id_hash _ _ rows e,
  λ utc_now now. on_row_missing claim.id_hash _ _ rows e,
)

settled_stays : (m m' : WebSession) → Evolves m m' → is_settled m ≡ true → is_settled m' ≡ true
settled_stays m m' v h = ground (arith, v.settled h)

fence_of :
    (claim : RevocationClaim) (m m' : WebSession)
    → (is_settled m ≡ true) ⊎ (claim.attempts < m.revocation_attempts)
    → m.revocation_attempts ≤ m'.revocation_attempts
    → (is_settled m ≡ true → is_settled m' ≡ true)
    → fenced_off claim m' ≡ true
unfolding fenced_off
fence_of claim m m' (inl s) a f = ground (arith, f s)
fence_of claim m m' (inr l) a f = ground arith

-- In a table with unique identifiers and valid rows, a claim that a later attempt has overtaken,
-- or whose logout has ended, stays without effect, whatever transactions follow, logins included, if
-- no login draws the identifier of this session again.
pub claim-Overtaken :
    (libs : Libs) (drawn : Text → Bool) (claim : RevocationClaim) (rows rows' : Rows)
    (m : WebSession)
    → IsTable rows
    → drawn claim.id_hash ≡ true
    → find_by_id claim.id_hash rows ≡ some m
    → (is_settled m ≡ true) ⊎ (claim.attempts < m.revocation_attempts)
    → Reach libs drawn rows rows'
    → Overtaken claim rows'
claim-Overtaken libs drawn claim rows rows' m t d e over r =
    elim ((Reach-Retains r t).1.row claim.id_hash m d e) [
      | inr gone ↦ row_gone claim rows' gone
      | inl (m', e', v) ↦
          fence_shut claim rows' m' e' (fence_of claim m m' over v.attempts (settled_stays m m' v))
    ]

pub claim_given :
    (libs : Libs) (id : Text) (now : ℕ) (m : WebSession) (c : RevocationClaim)
    → (claim_revocation_row libs id now m).0 ≡ ok (some c)
    → (not_claimable now m ≡ false)
      × (c.id_hash ≡ id)
      × (c.attempts ≡ saturating_suc m.revocation_attempts)
      × ((claim_revocation_row libs id now m).1 ≡ some (claimed_row now c.supabase_session_id m))
unfolding claim_revocation_row claim_decrypted claim_of
claim_given libs id now m c h = ground arith

-- The row behind a claim that is given out has the claim's number, one more than before.
claim_numbers :
    (libs : Libs) (id : Text) (utc_now now : ℕ) (rows : Rows) (c : RevocationClaim)
    → (claim_revocation libs id utc_now now rows).0 ≡ ok (some c)
    → (m m' : WebSession) × (find_by_id id rows ≡ some m)
      × (find_by_id id (claim_revocation libs id utc_now now rows).1 ≡ some m')
      × (c.attempts ≡ min i32_max (m.revocation_attempts + 1))
      × (m'.revocation_attempts ≡ c.attempts)
      × (fenced_off c m' ≡ false)
      × (c.id_hash ≡ id)
unfolding claim_revocation saturating_suc fenced_off not_claimable
claim_numbers libs id utc_now now rows c h =
    let row = claim_revocation_row libs id now in
    elim (Option-cases (find_by_id id rows)) [
      | inl e ↦ absurd (ground (arith, on_row_missing id (ok none) row rows e))
      | inr (m, e) ↦
          let (n, i, a, w) =
            claim_given libs id now m c (sym (on_row_fst id (ok none) row rows m e) ∙ h) in
          let m' = claimed_row now c.supabase_session_id m in
          (
            m,
            m',
            e,
            on_row_writes id (ok none) row rows m m' e w (unfold claimed_row in refl),
            omega (arith, a),
            unfold claimed_row in omega (arith, a),
            unfold claimed_row in ground (arith, n, a),
            i,
          )
    ]

-- In a table with unique identifiers and valid rows, a claim of a logout that is given out finds its
-- own fence open, and a claim of the same session that is given out later, whatever transactions run
-- between, logins included, has a greater number, and leaves the earlier claim without effect; unless
-- the count has reached the greatest `i32`, and if no login draws the session's identifier again.
pub claim_numbers_grow :
    (libs : Libs) (drawn : Text → Bool) (id : Text) (utc_now now utc_later later : ℕ)
    (rows rows' : Rows) (c c' : RevocationClaim)
    → IsTable rows
    → drawn id ≡ true
    → (claim_revocation libs id utc_now now rows).0 ≡ ok (some c)
    → Reach libs drawn (claim_revocation libs id utc_now now rows).1 rows'
    → (claim_revocation libs id utc_later later rows').0 ≡ ok (some c')
    → ((m : WebSession) × (find_by_id id (claim_revocation libs id utc_now now rows).1 ≡ some m)
        × (fenced_off c m ≡ false))
      × ((c.attempts ≡ i32_max)
          ⊎ (c.attempts < c'.attempts)
            × Overtaken c (claim_revocation libs id utc_later later rows').1)
claim_numbers_grow libs drawn id utc_now now utc_later later rows rows' c c' t d h r h' =
    let (m, m1, e, e1, a, a1, f, i) = claim_numbers libs id utc_now now rows c h in
    let (k, k1, e', e1', a', a1', f', i') = claim_numbers libs id utc_later later rows' c' h' in
    let t1 = (Step-Retains {libs = libs} {drawn = drawn} (attempts id utc_now now rows) t).0 in
    (
      (m1, e1, f),
      elim ((Reach-Retains r t1).1.row id m1 d e1) [
        | inr gone ↦ cc (gone, e')
        | inl (m2, e2, v) ↦
            let more : m1.revocation_attempts ≤ k.revocation_attempts =
              subst (λ x. m1.revocation_attempts ≤ x.revocation_attempts)
                (some-injective m2 k (sym e2 ∙ e')) v.attempts in
            elim (Bool-cases (ltb c.attempts i32_max)) [
              | inr top ↦ inl (ground (arith, top, a))
              | inl below ↦
                  let grown : c.attempts < c'.attempts = ground (arith, below, a', a1, more) in
                  inr (
                    grown,
                    fence_shut c _ k1 (rw i e1') (unfold fenced_off in ground (arith, grown, a1')),
                  )
            ]
      ],
    )
