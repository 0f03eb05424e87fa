-- ===== src/Store/Schema/Resume.antt =====
-- server/store/sql_store.go: migrations that fail and are run again.
use mattermost_plugin_org_di.Common.{
  ℕ, subst, zero, suc, ◌≤◌, ◌<◌, String, true, Option, none, some, List, [], ◌∷◌, ◌≡◌, refl, pos,
  ltb_ℤ, arith, Bool-cases, inl, inr,
}
use mattermost_plugin_org_di.Common.Sql.{append_row}
use mattermost_plugin_org_di.Common.Atoi.{atoi_value, itoa}
use mattermost_plugin_org_di.Store.Schema.{
  Schema, Run, version_of, migrate, run_migrations, get_schema_version, set_schema_version,
}
use mattermost_plugin_org_di.Store.Schema.History.{
  InOrder, empty, step_log, third_log, second_log, first_log,
}

-- The version that the key holds.
pub data Holds : Option String → ℕ → Type 0 where
  missing : Holds none 0
  first : Holds (some "1") 1
  second : Holds (some "2") 2
  third : Holds (some "3") 3

holds : (k : ℕ) → k < 3 → Holds (some (itoa (suc k))) (suc k)
unfolding itoa
holds zero k3 = first
holds (suc zero) k3 = second
holds (suc (suc zero)) k3 = third
holds (suc (suc (suc k))) k3 = absurd (omega (arith, k3))

-- The database has reached some version, from `k` and `c` on, and the key holds none beyond it.
pub data IsAt (k c : ℕ) (s : Schema) : Type 0 where
  at_version :
      (h v : ℕ)
      → k ≤ h
      → c ≤ h
      → v ≤ h
      → h ≤ 3
      → InOrder h s.executed
      → Holds s.stored v
      → IsAt k c s

-- The states that the runs of migrate leave.
abbrev pub IsCurrent : Schema → Type 0
IsCurrent s = IsAt 0 0 s

pub fresh : IsCurrent (record { stored = none; executed = [] })
fresh = at_version 0 0 (omega arith) (omega arith) (omega arith) (omega arith) empty missing

-- One executed migration, whether or not its version is written to the key.
step :
    (run : Run) (k c : ℕ) (s : Schema)
    → k < 3
    → IsAt k c s
    → IsAt
        (suc k)
        c
        (set_schema_version run (suc k) (record s { executed = append_row s.executed (suc k) }))
unfolding set_schema_version
step run k c s k3 (at_version h v kh ch vh h3 o held) =
    let (h', up, reached, small, log) = step_log h k s.executed kh k3 h3 o in
    elim (Bool-cases (run.writes (suc k))) [
      | inl e ↦
          rw e
            (at_version h' (suc k) reached (omega (arith, up, ch)) reached small log (holds k k3))
      | inr e ↦
          rw e
            (at_version h' v reached (omega (arith, up, ch)) (omega (arith, up, vh)) small log held)
    ]

-- A round of the loop: the migration is skipped, it fails, or it is executed.
round :
    (run : Run) (c k : ℕ) (vs : List ℕ) (s : Schema)
    → k < 3
    → IsAt k c s
    → ((s' : Schema) → IsAt (suc k) c s' → IsCurrent (run_migrations run (pos c) vs s').1)
    → IsCurrent (run_migrations run (pos c) (suc k ∷ vs) s).1
unfolding run_migrations
round run c k vs s k3 (at_version h v kh ch vh h3 o held) rest =
    elim (Bool-cases (ltb_ℤ (pos c) (pos (suc k)))) [
      | inr e ↦ rw e (rest s (at_version h v (ground (arith, ch)) ch vh h3 o held))
      | inl e ↦ elim (Bool-cases (run.accepts (suc k))) [
        | inl a ↦ rw (e, a) (rest _ (step run k c s k3 (at_version h v kh ch vh h3 o held)))
        | inr a ↦ rw (e, a) (at_version h v (omega arith) (omega arith) vh h3 o held)
      ]
    ]

loop-IsCurrent :
    (run : Run) (c : ℕ) (s : Schema)
    → IsAt 0 c s
    → IsCurrent (run_migrations run (pos c) (1 ∷ 2 ∷ 3 ∷ []) s).1
unfolding run_migrations
loop-IsCurrent run c s i = round run c 0 (2 ∷ 3 ∷ []) s (omega arith) i (λ s1 i1.
    round run c 1 (3 ∷ []) s1 (omega arith) i1
      (λ s2 i2. round run c 2 [] s2 (omega arith) i2 ended))
  where
    ended : (s : Schema) → IsAt 3 c s → IsCurrent s
    ended s (at_version h v kh ch vh h3 o held) =
        at_version h v (omega arith) (omega arith) vh h3 o held

stored_version : (o : Option String) (v : ℕ) → Holds o v → version_of o ≡ pos v
unfolding atoi_value
stored_version o v missing = refl
stored_version o v first = refl
stored_version o v second = refl
stored_version o v third = refl

-- What getSchemaVersion answers is not beyond what the database has reached.
version-held :
    (run : Run) (s : Schema) (v : ℕ)
    → Holds s.stored v
    → (c : ℕ) × (c ≤ v) × (get_schema_version run s ≡ pos c)
unfolding get_schema_version
version-held run s v held = elim (Bool-cases run.reads) [
  | inr e ↦ (0, omega arith, rw e refl)
  | inl e ↦ rw e (v, omega arith, stored_version s.stored v held)
]

migrate-IsCurrent : (run : Run) (s : Schema) → IsCurrent s → IsCurrent (migrate run s).1
unfolding migrate
migrate-IsCurrent run s (at_version h v kh ch vh h3 o held) =
    let (c, below, e) = version-held run s v held in
    rw e (loop-IsCurrent run c s (at_version h v kh (omega (arith, below, vh)) vh h3 o held))

-- Runs of migrate, one after the other, each of which may fail.
unfoldable pub migrate_all : List Run → Schema → Schema
unfolding migrate
migrate_all [] s = s
migrate_all (run ∷ runs) s = migrate_all runs (migrate run s).1

pub migrate_all-IsCurrent :
    (runs : List Run) (s : Schema) → IsCurrent s → IsCurrent (migrate_all runs s)
unfolding migrate_all
migrate_all-IsCurrent [] s h = h
migrate_all-IsCurrent (run ∷ runs) s h =
    migrate_all-IsCurrent runs (migrate run s).1 (migrate-IsCurrent run s h)

-- A run in which nothing fails.
abbrev pub sound : Run
sound = record { reads = true; accepts = λ v. true; writes = λ v. true }

-- The run succeeded, the key holds the last version, and the database has executed every migration,
-- none before an earlier one.
pub record IsMigrated (r : Option ℕ × Schema) : Type 0 where
  pub succeeded : r.0 ≡ none
  pub stored : r.1.stored ≡ some "3"
  pub log : InOrder 3 r.1.executed

sound-IsMigrated :
    (h v : ℕ) (o : Option String) (log : List ℕ)
    → v ≤ h
    → h ≤ 3
    → InOrder h log
    → Holds o v
    → IsMigrated (migrate sound (record { stored = o; executed = log }))
unfolding migrate run_migrations set_schema_version get_schema_version atoi_value itoa
sound-IsMigrated h v o' log vh h3 o missing = record {
  succeeded = refl;
  stored = refl;
  log = first_log h log h3 o;
}
sound-IsMigrated h v o' log vh h3 o first = record {
  succeeded = refl;
  stored = refl;
  log = second_log h log vh h3 o;
}
sound-IsMigrated h v o' log vh h3 o second = record {
  succeeded = refl;
  stored = refl;
  log = third_log h log vh h3 o;
}
sound-IsMigrated h v o' log vh h3 o third = record {
  succeeded = refl;
  stored = refl;
  log = subst (λ n. InOrder n log) (omega (arith, vh, h3)) o;
}

-- From a state that runs of migrate can leave (IsCurrent), after any number of runs in each of
-- which reading the version, any statement and writing any version may fail, a run in which nothing
-- fails succeeds, leaves the schema version 3, and the database has executed every migration, none
-- before those of lower versions.
pub migrate-resumed :
    (runs : List Run) (s : Schema) → IsCurrent s → IsMigrated (migrate sound (migrate_all runs s))
migrate-resumed runs s i = go (migrate_all-IsCurrent runs s i)
  where
    go : {s' : Schema} → IsCurrent s' → IsMigrated (migrate sound s')
    go {s'} (at_version h v kh ch vh h3 o held) =
        sound-IsMigrated h v s'.stored s'.executed vh h3 o held
