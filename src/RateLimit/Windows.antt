-- ===== src/RateLimit/Windows.antt =====
-- What one request does to the row of a key whose window is not over.
use mathlib.Core.Path.{subst}
use ai_agent_platform.RateLimit.Counter.{
  Row, is_key, cleanup, upsert, upserted, bump, new_row, retention_ms,
}
use ai_agent_platform.RateLimit.Assistant.{
  Quota, Failure, consume_tx, check_count, window_over, invalid_result, exceeded, retry_after,
}
use ai_agent_platform.Base.{
  ◌>>◌, ◌>>=◌, ℕ, ◌+◌, ◌≤◌, ◌<◌, max, String, Bool, true, false, ◌≡◌, refl, sym, ap, ◌∙◌, List, ◌∷◌,
  [], Option, some, none, find_first, delete_where, find_first-update_self, find_first-update_other,
  find_first-append_other, ltb, str_eq, arith, eq_iff, ok, err, Result, Tx, if◌then◌else◌, throw_if,
  inl, inr, Bool-cases,
}

find_first-delete_other :
    {A : Type 0} (p q : A → Bool) (xs : List A) (x : A)
    → find_first p xs ≡ some x
    → q x ≡ false
    → find_first p (delete_where q xs) ≡ some x
find_first-delete_other p q [] x h k = cc
find_first-delete_other {A} p q (y ∷ ys) x h k =
    branch (find_first-delete_other p q ys x) (p y) (q y) refl refl h
  where
    branch :
        (find_first p ys ≡ some x → q x ≡ false → find_first p (delete_where q ys) ≡ some x)
        → (b c : Bool) → p y ≡ b
        → q y ≡ c
        → (if b then some y else find_first p ys) ≡ some x
        → find_first p (if c then delete_where q ys else y ∷ delete_where q ys) ≡ some x
    branch rest true true e f g = cc
    branch rest true false e f g = rw e g
    branch rest false true e f g = rest g k
    branch rest false false e f g = rw e (rest g k)

-- A key's row that the window of its quota has not left is not cleaned up.
cleaned :
    (key prefix : String) (locked : Row → Bool) (now retention window : ℕ) (rows : List Row)
    (row : Row) {P : Type 0}
    → find_first (is_key key) rows ≡ some row
    → now < row.last_request + window
    → window ≤ retention
    → {E A : Type 0} (k : Unit {0} → Tx (List Row) E A) {r : A × List Row}
    → (cleanup prefix locked now retention >>= k) rows ≡ ok r
    → ((rest : List Row) → find_first (is_key key) rest ≡ some row → k tt rest ≡ ok r → P)
    → P
unfolding cleanup ◌>>=◌
cleaned key prefix locked now retention window rows row h active fits k e go =
    go _ (find_first-delete_other (is_key key) _ rows row h (ground arith)) e

-- The row of a key, of the window that began at the instant, with the count.
pub record IsCounting (key : String) (first count : ℕ) (rows : List Row) : Type 0 where
  pub row : Row
  pub stored : find_first (is_key key) rows ≡ some row
  pub began : row.last_request ≡ first
  pub counted : row.count ≡ count

-- A request of the key itself is counted once more, in a window that is not over.
written_own :
    (key : String) (first count : ℕ) (resets : ℕ → Bool) (fresh now : ℕ) (rows : List Row)
    → IsCounting key first count rows
    → resets first ≡ false
    → let (row, rest) = upserted resets fresh now key rows (find_first (is_key key) rows) in
      (row.count ≡ count + 1) × IsCounting key first (count + 1) rest
written_own key first count resets fresh now rows w still =
    let open_window : resets w.row.last_request ≡ false = ap resets w.began ∙ still in
    rw w.stored (
      rw open_window (omega (arith, w.counted)),
      record {
        row = bump resets now w.row;
        stored =
            find_first-update_self (is_key key) (bump resets now) rows w.row (λ y h. ground arith)
              w.stored;
        began = rw open_window w.began;
        counted = rw open_window (omega (arith, w.counted));
      },
    )

bump-key : (resets : ℕ → Bool) (now : ℕ) (row : Row) → (bump resets now row).key ≡ row.key
bump-key resets now row = branch (resets row.last_request)
  where
    branch :
        (b : Bool)
        → (if b
            then record row { count = 1; last_request = now }
            else record row { count = row.count + 1 }).key
          ≡ row.key
    branch true = refl
    branch false = refl

-- A request of another key leaves the row.
written_other :
    (key : String) (first count : ℕ) (resets : ℕ → Bool) (fresh now : ℕ) (other : String)
    (rows : List Row) (found : Option Row)
    → IsCounting key first count rows
    → str_eq key other ≡ false
    → IsCounting key first count (upserted resets fresh now other rows found).1
written_other key first count resets fresh now other rows none w foreign = record {
  row = w.row;
  stored = find_first-append_other (is_key key) rows (new_row fresh other now) foreign ∙ w.stored;
  began = w.began;
  counted = w.counted;
}
written_other key first count resets fresh now other rows (some r) w foreign = record {
  row = w.row;
  stored =
      find_first-update_other (is_key key) (is_key other) (bump resets now) rows
        (λ y h. (other_key y.key h, ap (str_eq key) (bump-key resets now y) ∙ other_key y.key h))
      ∙ w.stored;
  began = w.began;
  counted = w.counted;
}
  where
    other_key : (k : String) → str_eq other k ≡ true → str_eq key k ≡ false
    other_key k h = ground (arith, eq_iff other k, eq_iff key k)

abbrev pub admitted : Result Failure (Unit {0}) → Bool
admitted (ok u) = true
admitted (err e) = false

check_count-eq-ok :
    (quota : Quota) (now : ℕ) (row : Row) (rows : List Row) {r : Unit {0} × List Row}
    → check_count quota now row rows ≡ ok r
    → (row.count ≤ quota.maximum_attempts) × (r.1 ≡ rows)
unfolding check_count ◌>>=◌
check_count-eq-ok quota now row rows {r} h = branch _ _ refl h
  where
    branch :
        (a b : Bool)
        → ltb quota.maximum_attempts row.count ≡ b
        → (throw_if a invalid_result
              >> throw_if b (exceeded (retry_after quota row.last_request now)))
            rows
          ≡ ok r
        → (row.count ≤ quota.maximum_attempts) × (r.1 ≡ rows)
    branch true b e g = cc
    branch false true e g = cc
    branch false false e g = (ground arith, cc)

-- After the cleanup: the request of `other`, under its own `quota`, is counted and admitted.
counted-IsCounting :
    (key other : String) (first count : ℕ) (window : ℕ) (quota : Quota) (fresh now : ℕ)
    (rows : List Row) {r : Unit {0} × List Row}
    → IsCounting key first count rows
    → now < first + window
    → (str_eq key other ≡ true → quota.window_ms ≡ window)
    → (upsert (window_over quota now) fresh now other >>= check_count quota now) rows ≡ ok r
    → IsCounting key first (if str_eq key other then count + 1 else count) r.1
      × (str_eq key other ≡ true → count + 1 ≤ quota.maximum_attempts)
unfolding upsert ◌>>=◌
counted-IsCounting key other first count window quota fresh now rows {r} w active same h =
    let resets = window_over quota now in
    let u = upserted resets fresh now other rows (find_first (is_key other) rows) in
    let (small, e) = check_count-eq-ok quota now u.0 u.1 {r = r} h in
    elim (Bool-cases (str_eq key other)) [
      | inl own ↦
          let (c, d) =
            subst
              (λ o.
                let v = upserted resets fresh now o rows (find_first (is_key o) rows) in
                (v.0.count ≡ count + 1) × IsCounting key first (count + 1) v.1)
              ((eq_iff key other).0 own)
              (written_own key first count resets fresh now rows w (ground (arith, same own))) in
          rw own (
            subst (λ x. IsCounting key first (count + 1) x) (sym e) d,
            λ _. omega (arith, small, c),
          )
      | inr foreign ↦ rw foreign (
        subst (λ x. IsCounting key first count x) (sym e)
            (written_other key first count resets fresh now other rows
              (find_first (is_key other) rows) w foreign),
        λ own. cc,
      )
    ]

-- The counted rows after an admitted request of `other`, under its own `quota`.
pub consume_tx-IsCounting :
    (key other : String) (first count : ℕ) (window : ℕ) (quota : Quota) (locked : Row → Bool)
    (fresh now : ℕ) (rows : List Row) {r : Unit {0} × List Row}
    → IsCounting key first count rows
    → now < first + window
    → window ≤ retention_ms
    → (str_eq key other ≡ true → quota.window_ms ≡ window)
    → consume_tx locked fresh now other quota rows ≡ ok r
    → IsCounting key first (if str_eq key other then count + 1 else count) r.1
      × (str_eq key other ≡ true → count + 1 ≤ quota.maximum_attempts)
unfolding consume_tx
consume_tx-IsCounting key other first count window quota locked fresh now rows w active fits same
      h =
    cleaned key "assistant:" locked now (max retention_ms quota.window_ms) window rows w.row
      w.stored (omega (arith, w.began)) (omega arith)
      (λ _. upsert (window_over quota now) fresh now other >>= check_count quota now) h
      λ rest stored k.
        counted-IsCounting key other first count window quota fresh now rest
          (record { row = w.row; stored = stored; began = w.began; counted = w.counted }) active
          same k
