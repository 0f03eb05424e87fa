-- ===== src/Store/Mappings.antt =====
-- server/store/user_mapping_store.go
pub mod Laws
use mattermost_plugin_org_di.Common.{
  ℕ, suc, String, ◌==◌, Bool, ◌&&◌, Option, none, some, List, ℤ, ltb, eqb, Exec, ok, err, pure,
  or_no_rows, unique_violation, any, if◌then◌else◌, ◌>>=◌, ◌>>◌,
}
use mattermost_plugin_org_di.Common.Sql.{select, select_row, update, append_row, order_by}
use mattermost_plugin_org_di.Model.{UserMapping}
use mattermost_plugin_org_di.Store.Db.{Host, Db, read_clock, draw_id}
use mattermost_plugin_org_di.Store.Paging.{paged}

abbrev pub is_live : UserMapping → Bool
is_live m = eqb m.delete_at 0

abbrev pub at_user : String → String → UserMapping → Bool
at_user source external_user_id m = (m.source == source) && (m.external_user_id == external_user_id)

unfoldable pub find_mapping : String → String → List UserMapping → Option UserMapping
find_mapping source external_user_id rows =
    select_row (λ m. at_user source external_user_id m && is_live m) rows

-- GetUserMappingByExternalID
unfoldable pub get_user_mapping : String → String → Exec Db UserMapping
get_user_mapping source external_user_id db =
    or_no_rows (find_mapping source external_user_id db.mappings) db

-- INSERT, with PRIMARY KEY(id): the table has no other constraint.
unfoldable pub insert_mapping : UserMapping → Exec Db (Unit {0})
insert_mapping m db =
    if any (λ r. r.id == m.id) db.mappings
    then (err unique_violation, db)
    else (ok tt, record db { mappings = append_row db.mappings (record m { delete_at = 0 }) })

abbrev pub write_rows : (UserMapping → Bool) → (UserMapping → UserMapping) → Exec Db (Unit {0})
write_rows p f db = (ok tt, record db { mappings = update p f db.mappings })

abbrev pub remapped : UserMapping → ℕ → UserMapping → UserMapping
remapped m now r = record r {
  mm_user_id = m.mm_user_id;
  external_username = m.external_username;
  external_email = m.external_email;
  update_at = now;
}

abbrev pub deleted_at : ℕ → UserMapping → UserMapping
deleted_at now m = record m { delete_at = now; update_at = now }

module _ (host : Host) where
  unfoldable pub save_mapping : UserMapping → ℕ → Option UserMapping → Exec Db UserMapping
  unfolding insert_mapping
  save_mapping m now (some existing) = do
    write_rows (λ r. r.id == existing.id) (remapped m now)
    pure (record existing { mm_user_id = m.mm_user_id })
  save_mapping m now none = do
    id ← draw_id host
    insert_mapping (record m { id = id; create_at = now; update_at = now })
    pure (record m { id = id; create_at = now; update_at = now })

  -- UpsertUserMapping
  unfoldable pub upsert_user_mapping : UserMapping → Exec Db UserMapping
  upsert_user_mapping m db =
      (do
        now ← read_clock host
        save_mapping m now (find_mapping m.source m.external_user_id db.mappings))
        db

  -- DeleteUserMapping
  unfoldable pub delete_user_mapping : String → String → Exec Db (Unit {0})
  delete_user_mapping source external_user_id = do
    now ← read_clock host
    write_rows (λ m. at_user source external_user_id m && is_live m) (deleted_at now)

  -- DeleteUserMappingsBySource
  unfoldable pub delete_user_mappings_by_source : String → Exec Db (Unit {0})
  delete_user_mappings_by_source source = do
    now ← read_clock host
    write_rows (λ m. (m.source == source) && is_live m) (deleted_at now)

-- GetUserMappingsBySource
unfoldable pub get_user_mappings_by_source : String → ℤ → ℤ → Exec Db (List UserMapping)
unfolding paged
get_user_mappings_by_source source page per_page db =
    paged page per_page
      (order_by (λ a b. ltb b.create_at a.create_at)
        (select (λ m. (m.source == source) && is_live m) db.mappings))
      db

-- GetUserMappingsByMmUserID
unfoldable pub get_user_mappings_by_mm_user_id : String → Exec Db (List UserMapping)
get_user_mappings_by_mm_user_id mm_user_id db =
    (ok (select (λ m. (m.mm_user_id == mm_user_id) && is_live m) db.mappings), db)
