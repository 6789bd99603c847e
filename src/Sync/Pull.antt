-- ===== src/Sync/Pull.antt =====
-- `pull_changes` of canonical-web-server.rs/src/sync/service.rs: a page of the changes behind a client's
-- cursor, within a budget of rows and bytes.
use canonical_cloud.Base.{
  ℕ, ◌+◌, ◌*◌, ◌^◌, ◌-◌, min, max, Option, none, some, List, [], ◌∷◌, Text, Bool, true, false, not,
  ◌&&◌, if◌then◌else◌, ltb, leb, take, retain, unwrap_or, Result, ok, ok_or, ◌>>=◌,
}
use canonical_cloud.Auth.{Uuid}
use canonical_cloud.Sync.{RecordSnapshot, SyncError, json, Change, Account, SyncLibs}
use canonical_cloud.Sync.Cursor.{CursorLibs, encode, decode}

abbrev pub default_page_size : ℕ
default_page_size = 200

abbrev pub max_page_size : ℕ
max_page_size = 500

abbrev pub max_page_candidates : ℕ
max_page_candidates = 16

abbrev pub max_page_encoded_bytes : ℕ
max_page_encoded_bytes = 1024 * 1024

abbrev pub usize_max : ℕ
usize_max = 2 ^ 64 - 1

pub record PullQuery : Type 0 where
  pub cursor : Option Text
  pub limit : Option ℕ

pub record PullResponse : Type 0 where
  pub changes : List RecordSnapshot
  pub next_cursor : Text
  pub caught_up : Bool

unfoldable pub insert_change : Change → List Change → List Change
insert_change c [] = c ∷ []
insert_change c (r ∷ rows) =
    let rest = insert_change c rows in if ltb c.cursor r.cursor then c ∷ r ∷ rows else r ∷ rest

-- `order_by_asc(Cursor)`
unfoldable pub ascending : List Change → List Change
ascending [] = []
ascending (c ∷ rows) = insert_change c (ascending rows)

unfoldable pub in_range : ℕ → ℕ → Change → Bool
in_range position high_water c = ltb position c.cursor && leb c.cursor high_water

-- The rows that the query loads.
unfoldable pub candidates : ℕ → ℕ → ℕ → Account → List Change
candidates limit position high_water s =
    take (min limit max_page_candidates)
      (ascending (retain (in_range position high_water) s.changes))

-- The position and the high water that a request starts from.
unfoldable pub window : CursorLibs → Uuid → ℕ → Option Text → Result SyncError (ℕ × ℕ)
window libs owner current none = ok (0, current)
window libs owner current (some cursor) = do
  decoded ← decode libs cursor owner
  ok (if leb decoded.1 decoded.0 then (decoded.0, current) else (decoded.0, decoded.1))

module _ (libs : SyncLibs) where
  -- The loop over the rows: `is_first` says that no change has been taken yet.
  unfoldable pub page : Bool → ℕ → ℕ → List Change → Result SyncError (List RecordSnapshot × ℕ)
  page is_first encoded_bytes position [] = ok ([], position)
  page is_first encoded_bytes position (row ∷ rows) = do
    snapshot ← ok_or (libs.read_snapshot row.payload) json
    snapshot_bytes ← ok_or (libs.snapshot_len snapshot) json
    let next_bytes =
        min (min (encoded_bytes + (if is_first then 0 else 1)) usize_max + snapshot_bytes) usize_max
    let more = page false next_bytes row.cursor rows
    if not is_first && ltb max_page_encoded_bytes next_bytes
        then ok ([], position)
        else do rest ← more; ok (snapshot ∷ rest.0, rest.1)

  unfoldable pub pull_changes :
      CursorLibs → List ℕ → Uuid → PullQuery → Account → Result SyncError PullResponse
  pull_changes cursors nonce owner query s = do
    let limit = max 1 (min (unwrap_or query.limit default_page_size) max_page_size)
    let current_high_water = unwrap_or s.clock 0
    range ← window cursors owner current_high_water query.cursor
    taken ← page true 2 range.0 (candidates limit range.0 range.1 s)
    next_cursor ← encode cursors nonce owner taken.1 range.1
    ok (record { changes = taken.0; next_cursor = next_cursor; caught_up = leb range.1 taken.1 })
