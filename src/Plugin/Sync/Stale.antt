-- ===== src/Plugin/Sync/Stale.antt =====
-- executeSyncRequest of server/api_sync.go: what a full synchronisation leaves of a source.
use mattermost_plugin_org_di.Common.{
  ℕ, String, ◌++◌, ◌==◌, ◌≡◌, ◌∙◌, Bool, false, ◌&&◌, ◌||◌, not, List, [], ◌∷◌, arith, is_nil,
  contains, eqb, after,
}
use mattermost_plugin_org_di.Common.Sql.{select, select-update_hidden, select_cong}
use mattermost_plugin_org_di.Model.{OrgNode, OrgMember}
use mattermost_plugin_org_di.Store.Db.{Host, Db, IsSane}
use mattermost_plugin_org_di.Store.Nodes
use mattermost_plugin_org_di.Store.Nodes.Delete.{is_stale, soft_delete_nodes_by_source}
use mattermost_plugin_org_di.Store.Members
use mattermost_plugin_org_di.Store.Members.Save.{soft_delete_members_by_source}

abbrev pub live_node_of : String → OrgNode → Bool
live_node_of source n = (n.source == source) && Nodes.Rows.is_live n

abbrev pub live_member_of : String → OrgMember → Bool
live_member_of source m = (m.source == source) && Members.Rows.is_live m

-- Whether the request named the node, and whether it named the member: by the external id, or by the
-- relation.
abbrev pub node_named : List String → OrgNode → Bool
node_named ids n = contains n.external_id ids

abbrev pub member_named : List String → List String → OrgMember → Bool
member_named ids keys m =
    (not (m.external_id == "") && contains m.external_id ids)
    || contains (m.node_id ++ (":" ++ m.user_id)) keys

clock_live : (host : Host) → IsSane host → (n : ℕ) → eqb (host.clock n) 0 ≡ false
clock_live host sane n = ground (arith, sane.clock_pos n)

node_condition :
    (source : String) (ids : List String) (n : OrgNode)
    → (live_node_of source n && not (is_stale source ids n))
      ≡ (live_node_of source n && node_named ids n)
node_condition source [] n = ground arith
node_condition source (x ∷ xs) n = ground arith

-- On a sane host, after SoftDeleteNodesBySource the active nodes of the source are those among them
-- whose external ids are in the list; with an empty list, none is left.
pub live_nodes-soft_delete :
    (host : Host)
    → IsSane host
    → (source : String) (ids : List String) (db : Db)
    → select (live_node_of source) (after (soft_delete_nodes_by_source host source ids) db).nodes
      ≡ select (λ n. live_node_of source n && node_named ids n) db.nodes
unfolding soft_delete_nodes_by_source
live_nodes-soft_delete host sane source ids db =
    select-update_hidden _ (live_node_of source) _ db.nodes
      (λ r. ground (arith, clock_live host sane db.clock_reads))
    ∙ select_cong _ _ db.nodes (node_condition source ids)

member_condition :
    (source : String) (ids keys : List String) (m : OrgMember)
    → (live_member_of source m
        && not (
            (m.source == source)
            && Members.Rows.is_live m
            && (is_nil ids || (m.external_id == "") || not (contains m.external_id ids))
            && (is_nil keys || not (contains (m.node_id ++ (":" ++ m.user_id)) keys))))
      ≡ (live_member_of source m && member_named ids keys m)
member_condition source [] [] m = ground arith
member_condition source [] (k ∷ ks) m = ground arith
member_condition source (x ∷ xs) [] m = ground arith
member_condition source (x ∷ xs) (k ∷ ks) m = ground arith

-- On a sane host, after SoftDeleteMembersBySource the active members of the source are those among
-- them that one of the two lists names.
pub live_members-soft_delete :
    (host : Host)
    → IsSane host
    → (source : String) (ids keys : List String) (db : Db)
    → select
        (live_member_of source)
        (after (soft_delete_members_by_source host source ids keys) db).members
      ≡ select (λ m. live_member_of source m && member_named ids keys m) db.members
unfolding soft_delete_members_by_source
live_members-soft_delete host sane source ids keys db =
    select-update_hidden _ (live_member_of source) _ db.members
      (λ r. ground (arith, clock_live host sane db.clock_reads))
    ∙ select_cong _ _ db.members (member_condition source ids keys)
