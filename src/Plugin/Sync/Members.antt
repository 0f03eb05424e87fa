-- ===== src/Plugin/Sync/Members.antt =====
-- executeSyncRequest of server/api_sync.go: the loop over the members.
use mattermost_plugin_org_di.Common.{
  suc, String, ◌++◌, ◌==◌, ◌&&◌, Option, none, some, List, [], ◌∷◌, if◌then◌else◌, Result, ok, err,
}
use mattermost_plugin_org_di.Common.Sql.{append_row, select, select_row}
use mattermost_plugin_org_di.Common.Text.{trim_space}
use mattermost_plugin_org_di.Model.{OrgMember}
use mattermost_plugin_org_di.Model.Sync.{SyncMemberPayload}
use mattermost_plugin_org_di.Store.Db.{Host, Db}
use mattermost_plugin_org_di.Store.Nodes.Rows
use mattermost_plugin_org_di.Store.Members.Rows.{is_live, find_active}
use mattermost_plugin_org_di.Store.Members.Save.{remove_member, upsert_member_by_external_id}
use mattermost_plugin_org_di.Plugin.Sync.State.{
  Server, SyncState, error_text, with_skipped, member_created, member_updated, member_deleted,
}
use mattermost_plugin_org_di.Plugin.Sync.Users.{Resolved, resolve_mm_user}
use mattermost_plugin_org_di.Plugin.Sync.Nodes.{failed}

-- &pluginmodel.OrgMember{…} of a payload; the fields left out are Go's zero values.
unfoldable pub member_of_payload : String → String → String → SyncMemberPayload → OrgMember
member_of_payload source node_id user_id p = record {
  id = "";
  node_id = node_id;
  user_id = user_id;
  role = if p.role == "" then "member" else p.role;
  position = p.position;
  sort_order = p.sort_order;
  source = source;
  external_id = p.external_id;
  create_at = 0;
  update_at = 0;
  delete_at = 0;
}

-- GetAllMembersByNodeID
unfoldable pub get_all_members_by_node_id : String → Db → List OrgMember
get_all_members_by_node_id node_id db = select (λ m. (m.node_id == node_id) && is_live m) db.members

abbrev pub member_counted : SyncState → SyncState
member_counted s = record s { resp = record s.resp { total_members = suc s.resp.total_members } }

abbrev pub skipped : SyncMemberPayload → String → SyncState → SyncState
skipped p reason s = record s {
  resp =
      with_skipped
        (record {
          external_user_id = p.external_user_id;
          external_username = p.external_username;
          external_email = p.external_email;
          reason = reason;
        })
        s.resp;
}

-- The membership that decides between "created" and "updated".
unfoldable pub previous_member :
    String → String → String → SyncMemberPayload → Db → Option OrgMember
unfolding get_all_members_by_node_id
previous_member source node_id user_id p db =
    let existing = find_active node_id user_id db.members in
    if trim_space p.external_id == ""
    then existing
    else (elim (select_row (λ m. (m.source == source) && (m.external_id == p.external_id))
        (get_all_members_by_node_id node_id db)) [
          | none ↦ existing
          | some candidate ↦ some candidate
        ])

module _ (host : Host) (server : Server) (strategy source : String) where
  -- The count behind RemoveMember.
  abbrev pub removal : SyncState → Result (Unit {0}) × Db → SyncState
  removal s (ok done, db) = record s { db = db; resp = member_deleted s.resp }
  removal s (err e, db) =
      record (failed ("failed to delete member: " ++ error_text server.constraint_text e) s) {
        db = db;
      }

  -- The count behind UpsertMemberByExternalID.
  abbrev pub related : Option OrgMember → SyncState → Result OrgMember × Db → SyncState
  related (some before) s (ok m, db) = record s { db = db; resp = member_updated s.resp }
  related none s (ok m, db) = record s { db = db; resp = member_created s.resp }
  related before s (err e, db) =
      record (failed ("failed to upsert member: " ++ error_text server.constraint_text e) s) {
        db = db;
      }

  abbrev pub recorded : SyncMemberPayload → String → SyncState → SyncState
  recorded p key s = record s {
    member_ids =
        if p.external_id == "" then s.member_ids else append_row s.member_ids p.external_id;
    member_keys = append_row s.member_keys key;
  }

  unfoldable pub upsert_member_payload : SyncMemberPayload → String → String → SyncState → SyncState
  unfolding member_of_payload previous_member
  upsert_member_payload p node_id user_id s = recorded p (node_id ++ (":" ++ user_id)) (
      related (previous_member source node_id user_id p s.db) s
        (upsert_member_by_external_id host (member_of_payload source node_id user_id p) s.db))

  unfoldable pub delete_member_payload : String → String → SyncState → SyncState
  delete_member_payload node_id user_id s = removal s (remove_member host node_id user_id s.db)

  -- Behind resolveMMUser, which both actions call first.
  unfoldable pub relate_payload : SyncMemberPayload → String → SyncState → Resolved → SyncState
  unfolding upsert_member_payload delete_member_payload
  relate_payload p node_id s r =
      if r.user_id == ""
      then skipped p r.reason (record s { db = r.db })
      else if p.action == "delete"
      then delete_member_payload node_id r.user_id (record s { db = r.db })
      else upsert_member_payload p node_id r.user_id (record s { db = r.db })

  unfoldable pub place_member : SyncMemberPayload → SyncState → SyncState
  unfolding relate_payload
  place_member p s = elim (Rows.find_external source p.node_external_id s.db.nodes) [
    | none ↦ failed ("node not found for member: " ++ p.external_user_id) s
    | some node ↦ relate_payload p node.id s (resolve_mm_user host server strategy source p s.db)
  ]

  -- One round of the loop.
  unfoldable pub process_member : SyncMemberPayload → SyncState → SyncState
  unfolding place_member
  process_member p s = place_member p (member_counted s)

  unfoldable pub process_members : List SyncMemberPayload → SyncState → SyncState
  unfolding process_member
  process_members [] s = s
  process_members (p ∷ ps) s = process_members ps (process_member p s)
