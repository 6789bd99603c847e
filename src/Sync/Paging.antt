-- ===== src/Sync/Paging.antt =====
-- What a page of `pull_changes` (canonical-web-server.rs/src/sync/service.rs) makes of the rows that
-- are behind the client's position.
use canonical_cloud.Base.{
  ℕ, zero, suc, ◌+◌, ◌≤◌, ◌<◌, ◌≡◌, ◌≢◌, refl, min, max, List, [], ◌∷◌, Text, Bool, true, false,
  if◌then◌else◌, ltb, leb, length, take, retain, unwrap_or, Result, ok, ◌>>=◌, All, arith, inl, inr,
  ◌⊎◌, Option-cases, Bool-cases,
}
use canonical_cloud.Auth.{Uuid}
use canonical_cloud.Sync.{RecordSnapshot, SyncError, Change, Account, SyncLibs}
use canonical_cloud.Sync.Cursor.{CursorLibs, encode}
use canonical_cloud.Sync.Replay.{bound}
use canonical_cloud.Sync.Pull.{
  PullQuery, PullResponse, insert_change, ascending, in_range, candidates, window, page,
  pull_changes, default_page_size, max_page_size, max_page_candidates, usize_max,
}

-- The cursor of the last of the first `n` rows.
end_of : ℕ → ℕ → List Change → ℕ
end_of zero position rows = position
end_of (suc n) position [] = position
end_of (suc n) position (row ∷ rows) = end_of n row.cursor rows

abbrev Above : ℕ → List Change → Type 0
Above position = All (λ c. position < c.cursor)

end_of-Above :
    (n bound position : ℕ) (rows : List Change)
    → Above bound rows
    → bound < position
    → bound < end_of n position rows
unfolding end_of
end_of-Above zero bound position rows a h = h
end_of-Above (suc n) bound position [] a h = h
end_of-Above (suc n) bound position (row ∷ rows) a h = end_of-Above n bound row.cursor rows a.1 a.0

insert_change-Above :
    (position : ℕ) (c : Change) (rows : List Change)
    → position < c.cursor
    → Above position rows
    → Above position (insert_change c rows)
unfolding insert_change
insert_change-Above position c [] h a = (h, tt)
insert_change-Above position c (r ∷ rows) h a = elim (Bool-cases (ltb c.cursor r.cursor)) [
  | inl e ↦ rw e (h, a)
  | inr e ↦ rw e (a.0, insert_change-Above position c rows h a.1)
]

ascending-Above :
    (position : ℕ) (rows : List Change) → Above position rows → Above position (ascending rows)
unfolding ascending
ascending-Above position [] a = tt
ascending-Above position (c ∷ rows) a =
    insert_change-Above position c (ascending rows) a.0 (ascending-Above position rows a.1)

retained-Above :
    (position high_water : ℕ) (rows : List Change)
    → Above position (retain (in_range position high_water) rows)
unfolding retain in_range
retained-Above position high_water [] = tt
retained-Above position high_water (c ∷ rows) = elim (Bool-cases (in_range position high_water c)) [
  | inl e ↦ rw e (ground arith, retained-Above position high_water rows)
  | inr e ↦ rw e (retained-Above position high_water rows)
]

take-Above :
    (n position : ℕ) (rows : List Change) → Above position rows → Above position (take n rows)
unfolding take
take-Above zero position rows a = tt
take-Above (suc n) position [] a = tt
take-Above (suc n) position (c ∷ rows) a = (a.0, take-Above n position rows a.1)

candidates-Above :
    (limit position high_water : ℕ) (s : Account)
    → Above position (candidates limit position high_water s)
unfolding candidates
candidates-Above limit position high_water s =
    take-Above (min limit max_page_candidates) position _
      (ascending-Above position _ (retained-Above position high_water s.changes))

module _ (libs : SyncLibs) where
  -- Behind the first change of a page the loop goes on with the row's cursor.
  page_rest :
      (is_first : Bool) (bytes position : ℕ) (row : Change) (rows : List Change)
      (s : RecordSnapshot) (snapshots : List RecordSnapshot) (end : ℕ)
      → page libs is_first bytes position (row ∷ rows) ≡ ok (s ∷ snapshots, end)
      → (b : ℕ) × (page libs false b row.cursor rows ≡ ok (snapshots, end))
  unfolding page
  page_rest is_first bytes position row rows s snapshots end h =
      elim (Option-cases (libs.read_snapshot row.payload)) [
        | inl e ↦ absurd (ground arith)
        | inr (snapshot, e) ↦ elim (Option-cases (libs.snapshot_len snapshot)) [
          | inl e1 ↦ absurd (ground arith)
          | inr (n, e1) ↦ (
            min (min (bytes + (if is_first then 0 else 1)) usize_max + n) usize_max,
            ground arith,
          )
        ]
      ]

  page_prefix :
      (is_first : Bool) (bytes position : ℕ) (rows : List Change) (snapshots : List RecordSnapshot)
      (end : ℕ)
      → page libs is_first bytes position rows ≡ ok (snapshots, end)
      → end ≡ end_of (length snapshots) position rows
  unfolding page end_of
  page_prefix is_first bytes position [] [] end h = ground arith
  page_prefix is_first bytes position [] (s ∷ snapshots) end h = ground arith
  page_prefix is_first bytes position (row ∷ rows) [] end h = ground arith
  page_prefix is_first bytes position (row ∷ rows) (s ∷ snapshots) end h =
      let (b, r) = page_rest is_first bytes position row rows s snapshots end h in
      page_prefix false b row.cursor rows snapshots end r

  page_nonempty :
      (bytes position : ℕ) (row : Change) (rows : List Change) (snapshots : List RecordSnapshot)
      (end : ℕ)
      → page libs true bytes position (row ∷ rows) ≡ ok (snapshots, end)
      → 0 < length snapshots
  unfolding page
  page_nonempty bytes position row rows [] end h = ground arith
  page_nonempty bytes position row rows (s ∷ snapshots) end h = omega arith

  page_advances :
      (bytes position : ℕ) (rows : List Change) (snapshots : List RecordSnapshot) (end : ℕ)
      → Above position rows
      → page libs true bytes position rows ≡ ok (snapshots, end)
      → ((rows ≡ []) × (end ≡ position)) ⊎ (position < end) × (0 < length snapshots)
  unfolding page end_of
  page_advances bytes position [] snapshots end a h = inl (refl, ground arith)
  page_advances bytes position (row ∷ rows) [] end a h =
      absurd (ground (arith, page_nonempty bytes position row rows [] end h))
  page_advances bytes position (row ∷ rows) (s ∷ snapshots) end a h = inr (
    ground (
      arith,
      page_prefix true bytes position (row ∷ rows) (s ∷ snapshots) end h,
      end_of-Above (length snapshots) position row.cursor rows a.1 a.0,
    ),
    omega arith,
  )

abbrev answer : ℕ → List RecordSnapshot × ℕ → Text → Result SyncError PullResponse
answer high_water taken next_cursor =
    ok (record { changes = taken.0; next_cursor = next_cursor; caught_up = leb high_water taken.1 })

insert_change-nonempty : (c : Change) (rows : List Change) → insert_change c rows ≢ []
unfolding insert_change
insert_change-nonempty c [] h = cc h
insert_change-nonempty c (r ∷ rows) h = ground (arith, h)

-- The change is not in the window.
abbrev pub Outside : ℕ → ℕ → Change → Type 0
Outside position high_water c = (c.cursor ≤ position) ⊎ (high_water < c.cursor)

none-Outside :
    (position high_water : ℕ) (rows : List Change)
    → ascending (retain (in_range position high_water) rows) ≡ []
    → All (Outside position high_water) rows
unfolding retain in_range ascending
none-Outside position high_water [] h = tt
none-Outside position high_water (c ∷ rows) h = elim (Bool-cases (in_range position high_water c)) [
  | inl e ↦ absurd (
      insert_change-nonempty c (ascending (retain (in_range position high_water) rows))
        (ground (arith, e, h)))
  | inr e ↦ (ground (arith, e), none-Outside position high_water rows (ground (arith, e, h)))
]

take-none : (n : ℕ) (rows : List Change) → 0 < n → take n rows ≡ [] → rows ≡ []
take-none zero rows p h = absurd (omega (arith, p))
take-none (suc n) [] p h = refl
take-none (suc n) (c ∷ rows) p h = cc h

-- A pull that answers either answers with the position that it started from, and then the account has
-- no change in the window behind it, or with at least one change and a cursor behind that position;
-- the high water of the cursor is that of the window.
pub pull_advances :
    (libs : SyncLibs) (cursors : CursorLibs) (nonce : List ℕ) (owner : Uuid) (query : PullQuery)
    (s : Account) (position high_water : ℕ) (response : PullResponse)
    → window cursors owner (unwrap_or s.clock 0) query.cursor ≡ ok (position, high_water)
    → pull_changes libs cursors nonce owner query s ≡ ok response
    → All (Outside position high_water) s.changes
        × (encode cursors nonce owner position high_water ≡ ok response.next_cursor)
      ⊎ (end : ℕ) × (position < end)
        × (0 < length response.changes)
        × (encode cursors nonce owner end high_water ≡ ok response.next_cursor)
unfolding pull_changes
pull_advances libs cursors nonce owner query s position high_water response w h =
    let limit = max 1 (min (unwrap_or query.limit default_page_size) max_page_size) in
    let rows = candidates limit position high_water s in
    let finish = λ (taken : List RecordSnapshot × ℕ).
      encode cursors nonce owner taken.1 high_water >>= answer high_water taken in
    let (taken, e, h1) = bound (page libs true 2 position rows) finish response (ground arith) in
    let (next, e1, h2) =
      bound (encode cursors nonce owner taken.1 high_water) (answer high_water taken) response h1 in
    elim (page_advances libs 2 position rows taken.0 taken.1
      (candidates-Above limit position high_water s) e) [
        | inl (none_left, p) ↦ inl (
          none-Outside position high_water s.changes (
              take-none (min limit max_page_candidates) _ (omega arith)
                (unfold candidates in none_left)),
          ground arith,
        )
        | inr (advanced, some_taken) ↦ inr (taken.1, advanced, ground arith, ground arith)
      ]
