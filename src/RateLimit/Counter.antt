-- ===== src/RateLimit/Counter.antt =====
-- The table `rate_limits` as apps/web/src/server/assistant/assistant-rate-limit.ts and
-- apps/web/src/server/auth/rate-limit.ts use it. Instants are epoch milliseconds; a difference that
-- the source tests is written as a sum, since it may be negative there.
use text.Mathlib.Text.{starts_with}
use ai_agent_platform.Base.{
  ℕ, ◌+◌, String, Bool, not, ◌&&◌, Option, none, some, List, [], ◌∷◌, ◌++◌, ltb, leb, ◌==◌, str_eq,
  if◌then◌else◌, any, take, sort_by, keep_where, delete_where, update_where, find_first, Tx, ok,
}

pub record Row : Type 0 where
  pub id : ℕ
  pub key : String
  pub count : ℕ
  pub last_request : ℕ

abbrev pub retention_ms : ℕ
retention_ms = 86400000

abbrev pub cleanup_batch_size : ℕ
cleanup_batch_size = 100

abbrev pub is_key : String → Row → Bool
is_key key row = str_eq key row.key

-- `lastRequest < now - retention`, for the keys of one limiter.
abbrev pub is_expired : String → ℕ → ℕ → Row → Bool
is_expired prefix now retention row =
    starts_with row.key prefix && ltb (row.last_request + retention) now

abbrev older : Row → Row → Bool
older a b = leb a.last_request b.last_request

-- The oldest expired rows that no other transaction has locked, a batch of them.
abbrev selected : String → (Row → Bool) → ℕ → ℕ → List Row → List Row
selected prefix locked now retention rows = take cleanup_batch_size (
    sort_by older
      (keep_where (λ row. is_expired prefix now retention row && not (locked row)) rows))

-- The selected rows are deleted by their ids, which are unique: the row of a selected row's id is
-- that row, hence an expired one.
unfoldable pub cleanup : {E : Type 0} → String → (Row → Bool) → ℕ → ℕ → Tx (List Row) E (Unit {0})
cleanup prefix locked now retention rows = ok (
  tt,
  delete_where
      (λ row.
        is_expired prefix now retention row
        && any (λ (d : Row). d.id == row.id) (selected prefix locked now retention rows))
      rows,
)

-- The update of a row: `resets` says whether its window, which began at the instant, is over.
abbrev pub bump : (ℕ → Bool) → ℕ → Row → Row
bump resets now row =
    if resets row.last_request
    then record row { count = 1; last_request = now }
    else record row { count = row.count + 1 }

abbrev pub new_row : ℕ → String → ℕ → Row
new_row fresh key now = record { id = fresh; key = key; count = 1; last_request = now }

abbrev pub upserted : (ℕ → Bool) → ℕ → ℕ → String → List Row → Option Row → Row × List Row
upserted resets fresh now key rows none =
    (new_row fresh key now, rows ++ new_row fresh key now ∷ [])
upserted resets fresh now key rows (some row) =
    (bump resets now row, update_where (is_key key) (bump resets now) rows)

-- `INSERT … ON CONFLICT (key) DO UPDATE … RETURNING`; `fresh` is the id of a new row.
unfoldable pub upsert : {E : Type 0} → (ℕ → Bool) → ℕ → ℕ → String → Tx (List Row) E Row
upsert resets fresh now key rows =
    ok (upserted resets fresh now key rows (find_first (is_key key) rows))
