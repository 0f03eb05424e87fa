-- ===== src/Store/Schema/History.antt =====
-- server/store/sql_store.go: the order in which the database has executed the migrations.
use mattermost_plugin_org_di.Common.{
  ℕ, leb, subst, ap, suc, ◌≤◌, ◌<◌, List, [], arith, Bool-cases, inl, inr,
}
use mattermost_plugin_org_di.Common.Sql.{append_row}

-- A log of executed migrations in which every migration comes after all those before it have been
-- executed; the number is the last that has been. A migration may be executed again: its statements
-- are CREATE … IF NOT EXISTS.
pub data InOrder : ℕ → List ℕ → Type 0 where
  empty : InOrder 0 []
  next : {h : ℕ} {log : List ℕ} → InOrder h log → InOrder (suc h) (append_row log (suc h))
  again : {h v : ℕ} {log : List ℕ} → InOrder h log → 1 ≤ v → v ≤ h → InOrder h (append_row log v)

-- What the log is after the migration `suc k`, whose predecessors have been executed.
pub step_log :
    (h k : ℕ) (log : List ℕ)
    → k ≤ h
    → k < 3
    → h ≤ 3
    → InOrder h log
    → (h' : ℕ) × (h ≤ h') × (suc k ≤ h') × (h' ≤ 3) × InOrder h' (append_row log (suc k))
step_log h k log kh k3 h3 o = elim (Bool-cases (leb (suc k) h)) [
  | inl e ↦ (h, omega arith, ground arith, h3, again o (omega arith) (ground arith))
  | inr e ↦ (
    suc h,
    omega arith,
    omega arith,
    ground arith,
    subst (λ v. InOrder (suc h) (append_row log v)) (ap suc (ground arith)) (next o),
  )
]

-- What is left to execute, once each.
pub third_log :
    (h : ℕ) (log : List ℕ) → 2 ≤ h → h ≤ 3 → InOrder h log → InOrder 3 (append_row log 3)
third_log h log two h3 o =
    let (h', up, reached, small, o') = step_log h 2 log two (omega arith) h3 o in
    subst (λ v. InOrder v (append_row log 3)) (omega (arith, reached, small)) o'

pub second_log :
    (h : ℕ) (log : List ℕ)
    → 1 ≤ h
    → h ≤ 3
    → InOrder h log
    → InOrder 3 (append_row (append_row log 2) 3)
second_log h log one h3 o =
    let (h', up, reached, small, o') = step_log h 1 log one (omega arith) h3 o in
    third_log h' (append_row log 2) reached small o'

pub first_log :
    (h : ℕ) (log : List ℕ)
    → h ≤ 3
    → InOrder h log
    → InOrder 3 (append_row (append_row (append_row log 1) 2) 3)
first_log h log h3 o =
    let (h', up, reached, small, o') = step_log h 0 log (omega arith) (omega arith) h3 o in
    second_log h' (append_row log 1) reached small o'
