-- ===== src/Plugin/Api/Sync/Listing.antt =====
-- handleListSyncNodes of server/api_sync.go: what it lists.
use mattermost_plugin_org_di.Common.{
  ℕ, String, ◌==◌, ◌≡◌, refl, ap, ◌∙◌, Bool, true, false, ◌&&◌, Option, none, some, List, map,
  &&-right, reply, ok, or_no_rows, arith, [], ◌∷◌, subst, inl, inr, Bool-cases, All,
}
use mattermost_plugin_org_di.Common.Sql.{select, order_by, select_cong}
use mattermost_plugin_org_di.Common.Text.{trim_space}
use mattermost_plugin_org_di.Model.{OrgNode}
use mattermost_plugin_org_di.Store.Db.{Host, Db}
use mattermost_plugin_org_di.Store.Nodes.Rows.{
  is_live, find_node, find_external, get_node_by_external_id,
}
use mattermost_plugin_org_di.Store.Nodes.Queries.{by_depth, get_nodes_by_source}
use mattermost_plugin_org_di.Store.Nodes.Children.{
  IsFound, All-IsFound, All-select, All-order_by, All-map,
}
use mattermost_plugin_org_di.Store.Tree.Invariant.{IsTree}
use mattermost_plugin_org_di.Plugin.Sync.Dto.{
  build_sync_node_dto, build_sync_node_dtos_with_pool, by_position,
}
use mattermost_plugin_org_di.Plugin.Sync.Dto.Known.{IsPool}
use mattermost_plugin_org_di.Plugin.Sync.Dto.Pool.{build_dtos_with_pool_lem}
use mattermost_plugin_org_di.Plugin.Api.Http.{json}
use mattermost_plugin_org_di.Plugin.Api.Sync.Reads.{
  SyncNodeList, is_listed, list_bounded, handle_list_sync_nodes,
}
use mattermost_plugin_org_di.Plugin.Api.Sync.Wanted.{
  Reads, bound_of, reads_lem, is_wanted, bounds-within, is_listed-below,
}

-- GetNodesBySource
abbrev of_source : Host → Db → String → List OrgNode
of_source host db source =
    order_by (by_depth host) (select (λ n. (n.source == source) && is_live n) db.nodes)

of_source-IsPool :
    (host : Host) (db : Db) (source : String)
    → IsTree db.nodes
    → IsPool db.nodes (of_source host db source)
of_source-IsPool host db source t = All-order_by _ (by_depth host) _ (
    All-map _ _ _ (λ n h. h.0 (&&-right (n.source == source) _ h.1))
      (All-select (IsFound db.nodes) _ db.nodes (All-IsFound db.nodes t.keys)))

-- The rows that the loop keeps.
select_cong-All :
    (P : OrgNode → Type 0) (p q : OrgNode → Bool) (rows : List OrgNode)
    → ((n : OrgNode) → P n → p n ≡ q n)
    → All P rows
    → select p rows ≡ select q rows
select_cong-All P p q [] same h = refl
select_cong-All P p q (r ∷ rs) same h =
    ground (arith, same r h.0, select_cong-All P p q rs same h.1)

-- The parent that the request names: none, or the node of the source with that external id.
pub data Names (db : Db) (source text : String) : Option OrgNode → Type 0 where
  no_parent : (trim_space text == "") ≡ true → Names db source text none
  parent :
      (p : OrgNode)
      → (trim_space text == "") ≡ false
      → find_external source (trim_space text) db.nodes ≡ some p
      → Names db source text (some p)

named-found :
    (source external_id : String) (p : OrgNode) (rows rest : List OrgNode)
    → All (IsFound rows) rest
    → find_external source external_id rest ≡ some p
    → find_node p.id rows ≡ some p
unfolding find_external
named-found source external_id p rows [] h e = absurd (ground (arith, e))
named-found source external_id p rows (r ∷ rs) h e =
    elim (Bool-cases ((r.source == source) && (r.external_id == external_id) && is_live r)) [
      | inr away ↦ named-found source external_id p rows rs h.1 (ground (arith, e, away))
      | inl here ↦
          let one : r ≡ p = ground (arith, e, here) in
          subst (λ x. find_node x.id rows ≡ some x) one (h.0 (ground (arith, here)))
    ]

-- The live nodes of the source that are wanted, in the order of the answer.
abbrev pub listing : Host → Db → String → Option OrgNode → Option ℕ → Option ℕ → SyncNodeList
listing host db source p depth max_depth = record {
  source = source;
  nodes =
      map (build_sync_node_dto db.nodes)
        (order_by by_position (select (is_wanted p depth max_depth) (of_source host db source)));
}

module _ (host : Host) (db : Db) (source : String) (t : IsTree db.nodes) where
  of_source-All : All (λ n. find_node n.id db.nodes ≡ some n) (of_source host db source)
  of_source-All = All-order_by _ (by_depth host) _ (
      All-map _ _ _ (λ n h. h.0 (&&-right (n.source == source) _ h.1))
        (All-select (IsFound db.nodes) _ db.nodes (All-IsFound db.nodes t.keys)))

  kept_lem :
      (text : String) (p : Option OrgNode) (d m : Option ℕ)
      → Names db source text p
      → select (is_listed p (bound_of d) (bound_of m)) (of_source host db source)
        ≡ select (is_wanted p d m) (of_source host db source)
  unfolding is_listed
  kept_lem text p d m (no_parent top) =
      select_cong _ _ (of_source host db source) (λ n. bounds-within d m n.depth)
  kept_lem text p d m (parent q named e) =
      select_cong-All (λ n. find_node n.id db.nodes ≡ some n) _ _ (of_source host db source)
        (λ n en.
          is_listed-below db.nodes q n d m t
            (named-found source (trim_space text) q db.nodes db.nodes (All-IsFound db.nodes t.keys)
              e)
            en)
        of_source-All

  -- The answer for the rows that the loop keeps.
  answered :
      (text : String) (p : Option OrgNode) (d m : Option ℕ)
      → Names db source text p
      → json 200 (record {
        source = source;
        nodes =
            build_sync_node_dtos_with_pool db.nodes
              (select (is_listed p (bound_of d) (bound_of m)) (of_source host db source))
              (of_source host db source);
      })
        ≡ json 200 (listing host db source p d m)
  answered text p d m names =
      ap (λ nodes. json 200 (record { source = source; nodes = nodes }))
        (build_dtos_with_pool_lem db.nodes _ (of_source host db source)
            (of_source-IsPool host db source t)
          ∙ ap (λ rows. map (build_sync_node_dto db.nodes) (order_by by_position rows))
              (kept_lem text p d m names))

  known_parent :
      (external_id : String) (q : OrgNode)
      → find_external source external_id db.nodes ≡ some q
      → reply (get_node_by_external_id source external_id) db ≡ ok q
  unfolding get_node_by_external_id find_external
  known_parent external_id q e = ap (λ o. reply (or_no_rows o) db) e

  list_bounded_lem :
      (text : String) (p : Option OrgNode) (d m : Option ℕ)
      → Names db source text p
      → list_bounded host db source (trim_space text) (bound_of d) (bound_of m)
        ≡ json 200 (listing host db source p d m)
  unfolding list_bounded get_nodes_by_source
  list_bounded_lem text p none none (no_parent top) =
      rw top (answered text none none none (no_parent top))
  list_bounded_lem text p none (some m) (no_parent top) =
      rw top (answered text none none (some m) (no_parent top))
  list_bounded_lem text p (some d) none (no_parent top) =
      rw top (answered text none (some d) none (no_parent top))
  list_bounded_lem text p (some d) (some m) (no_parent top) =
      rw top (answered text none (some d) (some m) (no_parent top))
  list_bounded_lem text p none none (parent q named e) =
      rw (named, known_parent (trim_space text) q e)
        (answered text (some q) none none (parent q named e))
  list_bounded_lem text p none (some m) (parent q named e) =
      rw (named, known_parent (trim_space text) q e)
        (answered text (some q) none (some m) (parent q named e))
  list_bounded_lem text p (some d) none (parent q named e) =
      rw (named, known_parent (trim_space text) q e)
        (answered text (some q) (some d) none (parent q named e))
  list_bounded_lem text p (some d) (some m) (parent q named e) =
      rw (named, known_parent (trim_space text) q e)
        (answered text (some q) (some d) (some m) (parent q named e))

-- On a well-formed tree, with a source, with depth and max_depth each blank or the decimal text of
-- a natural number, and with a parent that is blank or names a live node of the source,
-- handleListSyncNodes answers 200 with the live nodes of the source whose depth is the first number
-- and at most the second, in the order of depth, sort order, path and name, each as
-- buildSyncNodeDTO shows it. With a parent these are the nodes behind its path, and the depth is
-- counted from its children; the tests for the parent itself and for nodes above it are of no
-- effect.
pub handle_list_sync_nodes_lem :
    (host : Host) (db : Db) (source depth max_depth parent_id : String) (p : Option OrgNode)
    (d m : Option ℕ)
    → IsTree db.nodes
    → (trim_space source == "") ≡ false
    → Names db (trim_space source) parent_id p
    → Reads depth d
    → Reads max_depth m
    → handle_list_sync_nodes host db source depth max_depth parent_id
      ≡ json 200 (listing host db (trim_space source) p d m)
unfolding handle_list_sync_nodes
handle_list_sync_nodes_lem host db source depth max_depth parent_id p d m t named names rd rm =
    rw (named, reads_lem depth d rd, reads_lem max_depth m rm)
      (list_bounded_lem host db (trim_space source) t parent_id p d m names)
