-- ===== src/Store/Db.antt =====
-- The database behind server/store/sql_store.go, and what the store takes from the server: the
-- clock (time.Now), the ids (model.NewId), the order of texts in ORDER BY and LOWER().
use mattermost_plugin_org_di.Common.{
  ℕ, suc, ◌<◌, String, ◌≡◌, Bool, true, Option, none, some, List, Exec, ok, err, Error,
}
use mattermost_plugin_org_di.Common.Text.{is_segment}
use mattermost_plugin_org_di.Model.{OrgNode, OrgMember, UserMapping, AuditLog}
use mattermost_plugin_org_di.Model.Sync.{SyncLog}

-- The n-th reading of the clock, in milliseconds, and the n-th new id. `update_error n i` is the error
-- of the i-th UPDATE of a loop that began after n readings of the clock, if it has one.
pub record Host : Type 0 where
  pub clock : ℕ → ℕ
  pub new_id : ℕ → String
  pub text_before : String → String → Bool
  pub lower : String → String
  pub update_error : ℕ → ℕ → Option Error

-- What the code relies on: time is after 1970, and an id is a non-empty text of letters and digits.
pub record IsSane (host : Host) : Type 0 where
  pub clock_pos : (n : ℕ) → 0 < host.clock n
  pub id_segment : (n : ℕ) → is_segment (host.new_id n) ≡ true

-- The five tables, and how many clock readings and ids have been taken.
pub record Db : Type 0 where
  pub nodes : List OrgNode
  pub members : List OrgMember
  pub mappings : List UserMapping
  pub sync_logs : List SyncLog
  pub audit_logs : List AuditLog
  pub clock_reads : ℕ
  pub ids_drawn : ℕ

module _ (host : Host) where
  -- time.Now().UnixMilli()
  abbrev pub read_clock : Exec Db ℕ
  read_clock db = (ok (host.clock db.clock_reads), record db { clock_reads = suc db.clock_reads })

  -- model.NewId()
  abbrev pub draw_id : Exec Db String
  draw_id db = (ok (host.new_id db.ids_drawn), record db { ids_drawn = suc db.ids_drawn })

  -- The error that the database answers to the i-th UPDATE of a loop, before it writes.
  abbrev pub attempt : ℕ → Exec Db (Unit {0})
  attempt i db = (elim (host.update_error db.clock_reads i) [ none ↦ ok tt | some e ↦ err e ], db)

-- The host on which every UPDATE of the loops succeeds.
abbrev pub unfailing : Host → Host
unfailing host = record host { update_error = λ n i. none }
