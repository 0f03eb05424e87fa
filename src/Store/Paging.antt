-- ===== src/Store/Paging.antt =====
-- LIMIT and OFFSET of the paginated queries: offset := page * perPage, on Go's signed ints.
use Prim.Native.Nat.{◌*◌}
use mattermost_plugin_org_di.Common.{zero, suc, List, [], ℤ, pos, negsuc, Exec, ok, err, message}
use mattermost_plugin_org_di.Common.Sql.{page_of}
use mattermost_plugin_org_di.Store.Db.{Db}

-- PostgreSQL refuses a negative LIMIT or OFFSET.
unfoldable pub paged : {A : Type 0} → ℤ → ℤ → List A → Exec Db (List A)
paged (pos page) (pos per_page) rows db = (ok (page_of per_page (page * per_page) rows), db)
paged (negsuc page) (pos zero) rows db = (ok [], db)
paged (negsuc page) (pos (suc per_page)) rows db = (err (message "OFFSET must not be negative"), db)
paged page (negsuc per_page) rows db = (err (message "LIMIT must not be negative"), db)
