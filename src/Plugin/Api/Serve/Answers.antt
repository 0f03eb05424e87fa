-- ===== src/Plugin/Api/Serve/Answers.antt =====
-- server/api_node.go and api_member.go: what a handler answers behind its call of the store.
use mattermost_plugin_org_di.Common.{ℕ, ◌≤◌, String, ◌≡◌, refl, Option, arith, Result, ok, err}
use mattermost_plugin_org_di.Model.{OrgNode}
use mattermost_plugin_org_di.Store.Db.{Host, Db}
use mattermost_plugin_org_di.Store.Failed.{Unwritten}
use mattermost_plugin_org_di.Plugin.Config.{Configuration}
use mattermost_plugin_org_di.Plugin.Api.Http.{World, Platform, Response, failure}
use mattermost_plugin_org_di.Plugin.Api.Nodes
use mattermost_plugin_org_di.Plugin.Api.Nodes.{
  CreateNodeRequest, UpdateNodeRequest, changed_node, requested_node, handle_create_node,
  create_requested, handle_update_node, update_requested, handle_delete_node, handle_move_node,
}
use mattermost_plugin_org_di.Plugin.Api.Serve.{status}

-- Nodes, memberships and events are as they were.
abbrev pub SameOrg : World → World → Type 0
SameOrg w w' = (w'.db.nodes ≡ w.db.nodes) × (w'.db.members ≡ w.db.members) × (w'.events ≡ w.events)

-- Where the answer is an error, they are.
pub data IsAtomic {A : Type 0} (w : World) (r : Response A × World) : Type 0 where
  atomic : (400 ≤ (status r).0 → SameOrg w (status r).1) → IsAtomic w r

pub same_org :
    {A : Type 0} {w : World} {r : Response A × World}
    → IsAtomic w r
    → 400 ≤ (status r).0
    → SameOrg w (status r).1
same_org (atomic same) = same

pub kept :
    {A : Type 0}
    → (code : ℕ) (text : String) (w : World) → IsAtomic {A = A} w (failure code text, w)
kept code text w = atomic (λ h. (refl, refl, refl))

module _ (host : Host) (platform : Platform) (config : Option Configuration) (user : String) where
  pub created-IsAtomic :
      (w : World) (r : Result OrgNode × Db)
      → Unwritten w.db r
      → IsAtomic w (Nodes.after_create host platform config user w r)
  created-IsAtomic w (ok n, db) u = atomic (λ h. absurd (ground (arith, h)))
  created-IsAtomic w (err e, db) u = atomic (λ h. (u.0, u.1, refl))

  pub updated-IsAtomic :
      (id : String) (n : OrgNode) (w : World) (r : Result OrgNode × Db)
      → Unwritten w.db r
      → IsAtomic w (Nodes.after_update host platform config user id n w r)
  updated-IsAtomic id n w (ok saved, db) u = atomic (λ h. absurd (ground (arith, h)))
  updated-IsAtomic id n w (err e, db) u = atomic (λ h. (u.0, u.1, refl))

  pub deleted-IsAtomic :
      (id strategy : String) (n : OrgNode) (w : World) (r : Result (Unit {0}) × Db)
      → Unwritten w.db r
      → IsAtomic w (Nodes.after_delete host platform config user id strategy n w r)
  deleted-IsAtomic id strategy n w (ok done, db) u = atomic (λ h. absurd (ground (arith, h)))
  deleted-IsAtomic id strategy n w (err e, db) u = atomic (λ h. (u.0, u.1, refl))

  pub moved-IsAtomic :
      (id parent : String) (w : World) (r : Result (Unit {0}) × Db)
      → Unwritten w.db r
      → IsAtomic w (Nodes.after_move host platform config user id parent w r)
  moved-IsAtomic id parent w (ok done, db) u = atomic (λ h. absurd (ground (arith, h)))
  moved-IsAtomic id parent w (err e, db) u = atomic (λ h. (u.0, u.1, refl))
