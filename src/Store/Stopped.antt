-- ===== src/Store/Stopped.antt =====
-- server/store: ReorderNodes and ReorderMembers make one UPDATE after the other, outside any
-- transaction, and return at the first error.
use mattermost_plugin_org_di.Common.{
  ℕ, suc, ◌<◌, String, ◌≡◌, refl, List, [], ◌∷◌, length, take, arith, Option-cases, inl, inr,
  Result, ok, err, after,
}
use mattermost_plugin_org_di.Store.Db.{Host, Db, unfailing}
use mattermost_plugin_org_di.Store.Nodes.Save.{reorder_nodes_from, reorder_nodes}
use mattermost_plugin_org_di.Store.Members.Save.{reorder_members_from, reorder_members}

-- A loop over `ids` that returned an error left the database of a run over fewer of them, the first
-- ones, that had no error; `whole` is that run.
abbrev pub IsStopped : (List String → Db) → List String → Result (Unit {0}) × Db → Type 0
IsStopped whole ids (ok done, db) = Unit {0}
IsStopped whole ids (err e, db) = (k : ℕ) × (k < length ids) × (db ≡ whole (take k ids))

later-IsStopped :
    (whole : List String → Db) (id : String) (ids : List String) (r : Result (Unit {0}) × Db)
    → IsStopped (λ js. whole (id ∷ js)) ids r
    → IsStopped whole (id ∷ ids) r
later-IsStopped whole id ids (ok done, db) h = tt
later-IsStopped whole id ids (err e, db) (k, short, same) = (suc k, omega (arith, short), same)

module _ (host : Host) where
  nodes_from-IsStopped :
      (now i : ℕ) (parent_id : String) (ids : List String) (db : Db)
      → IsStopped
          (λ js. after (reorder_nodes_from (unfailing host) now i parent_id js) db)
          ids
          (reorder_nodes_from host now i parent_id ids db)
  unfolding reorder_nodes_from
  nodes_from-IsStopped now i parent_id [] db = tt
  nodes_from-IsStopped now i parent_id (id ∷ ids) db =
      elim (Option-cases (host.update_error db.clock_reads i)) [
        | inl e ↦ rw e (
            later-IsStopped
              (λ js. after (reorder_nodes_from (unfailing host) now i parent_id js) db) id ids _
              (nodes_from-IsStopped now (suc i) parent_id ids _))
        | inr (stopped, e) ↦ rw e (0, omega arith, refl)
      ]

  pub reorder_nodes-IsStopped :
      (parent_id : String) (ids : List String) (db : Db)
      → IsStopped
          (λ js. after (reorder_nodes (unfailing host) parent_id js) db)
          ids
          (reorder_nodes host parent_id ids db)
  unfolding reorder_nodes
  reorder_nodes-IsStopped parent_id ids db = nodes_from-IsStopped _ 0 parent_id ids _

  members_from-IsStopped :
      (now i : ℕ) (node_id : String) (user_ids : List String) (db : Db)
      → IsStopped
          (λ js. after (reorder_members_from (unfailing host) now i node_id js) db)
          user_ids
          (reorder_members_from host now i node_id user_ids db)
  unfolding reorder_members_from
  members_from-IsStopped now i node_id [] db = tt
  members_from-IsStopped now i node_id (u ∷ us) db =
      elim (Option-cases (host.update_error db.clock_reads i)) [
        | inl e ↦ rw e (
            later-IsStopped
              (λ js. after (reorder_members_from (unfailing host) now i node_id js) db) u us _
              (members_from-IsStopped now (suc i) node_id us _))
        | inr (stopped, e) ↦ rw e (0, omega arith, refl)
      ]

  pub reorder_members-IsStopped :
      (node_id : String) (user_ids : List String) (db : Db)
      → IsStopped
          (λ js. after (reorder_members (unfailing host) node_id js) db)
          user_ids
          (reorder_members host node_id user_ids db)
  unfolding reorder_members
  reorder_members-IsStopped node_id user_ids db = members_from-IsStopped _ 0 node_id user_ids _
