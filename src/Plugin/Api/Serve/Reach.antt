-- ===== src/Plugin/Api/Serve/Reach.antt =====
-- server/api.go: the worlds that a sequence of requests leads to.
use mattermost_plugin_org_di.Common.{◌==◌, Option, Bool-cases, inl, inr}
use mattermost_plugin_org_di.Store.Db.{Host, IsSane}
use mattermost_plugin_org_di.Plugin.Config.{Configuration}
use mattermost_plugin_org_di.Plugin.Permissions.{Request, check_auth}
use mattermost_plugin_org_di.Plugin.Api.Http.{World, Platform}
use mattermost_plugin_org_di.Plugin.Api.Serve.{Command, serve}
use mattermost_plugin_org_di.Plugin.Api.Serve.Consistent.{IsConsistent}
use mattermost_plugin_org_di.Plugin.Api.Serve.Kept.{Admissible, handle-IsConsistent}

-- Requests that are served one after the other, each where the store's conditions hold.
pub data Reach (host : Host) (platform : Platform) (config : Option Configuration)
    : World → World → Type 0 where
  start : (w : World) → Reach host platform config w w
  next :
      {w v : World}
      → (r : Request) (command : Command) → Reach host platform config w v
      → Admissible config command v
      → Reach host platform config w (serve host platform config r command v).1

serve-IsConsistent :
    (host : Host) (sane : IsSane host) (platform : Platform) (config : Option Configuration)
    (r : Request) (command : Command) (w : World)
    → Admissible config command w
    → IsConsistent w.db
    → IsConsistent (serve host platform config r command w).1.db
unfolding serve check_auth
serve-IsConsistent host sane platform config r command w h c = elim (Bool-cases (r.user_id == "")) [
  | inl e ↦ rw e c
  | inr e ↦ rw e (handle-IsConsistent host sane platform config r.user_id command w h c)
]

-- On a sane host, any sequence of requests takes a well-formed tree and a table of memberships that
-- meets its constraints to such, where each request is admissible: a deletion does not move
-- children to the parent, and a move names no deleted row.
pub Reach-IsConsistent :
    (host : Host) (platform : Platform) (config : Option Configuration) (w v : World)
    → IsSane host
    → Reach host platform config w v
    → IsConsistent w.db
    → IsConsistent v.db
Reach-IsConsistent host platform config w w' sane (start v) c = c
Reach-IsConsistent host platform config w w' sane (next r command before h) c =
    serve-IsConsistent host sane platform config r command _ h
      (Reach-IsConsistent host platform config w _ sane before c)
