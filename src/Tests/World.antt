-- ===== src/Tests/World.antt =====
-- A server, and an organisation: a company "a", its department "b" and the team "c" of "b".
use mattermost_plugin_org_di.Common.{
  ℕ, zero, suc, String, ◌≡◌, refl, subst, true, false, [], ◌∷◌, pos, ◌+ℤ◌, arith, after, none,
}
use mattermost_plugin_org_di.Common.Text.{is_segment, is_path_text, has_slash}
use mattermost_plugin_org_di.Model.{OrgNode, OrgMember, node_pre_save}
use mattermost_plugin_org_di.Store.Db.{Host, Db, IsSane}
use mattermost_plugin_org_di.Store.Nodes.Rows.{find_node}
use mattermost_plugin_org_di.Store.Nodes.Save.{create_node, place_node, insert_node}
use mattermost_plugin_org_di.Store.Tree.Invariant.{IsTree}
use mattermost_plugin_org_di.Store.Tree.Create.{create_node-IsTree}

abbrev id_at : ℕ → String
id_at zero = "a"
id_at (suc zero) = "b"
id_at (suc (suc zero)) = "c"
id_at (suc (suc (suc n))) = "z"

abbrev pub host : Host
host = record {
  clock = λ n. suc n;
  new_id = id_at;
  text_before = λ a b. false;
  lower = λ s. s;
  update_error = λ n i. none;
}

id_at-is_segment : (n : ℕ) → is_segment (id_at n) ≡ true
unfolding is_segment is_path_text has_slash
id_at-is_segment zero = refl
id_at-is_segment (suc zero) = refl
id_at-is_segment (suc (suc zero)) = refl
id_at-is_segment (suc (suc (suc n))) = refl

pub host-IsSane : IsSane host
host-IsSane = record { clock_pos = λ n. omega arith; id_segment = id_at-is_segment }

abbrev pub draft : String → String → String → OrgNode
draft name parent_id external_id = record {
  id = "";
  name = name;
  parent_id = parent_id;
  path = "";
  depth = pos 0;
  sort_order = pos 0;
  description = "";
  icon = "";
  metadata = "{}";
  source = "hr";
  external_id = external_id;
  create_at = 0;
  update_at = 0;
  delete_at = 0;
  creator_id = "";
}

abbrev pub company : OrgNode
company = record (draft "Company" "" "e1") {
  id = "a";
  path = "/a";
  depth = pos 0;
  create_at = 1;
  update_at = 1;
}

abbrev pub department : OrgNode
department = record (draft "Department" "a" "e2") {
  id = "b";
  path = "/a/b";
  depth = pos 1;
  create_at = 2;
  update_at = 2;
}

abbrev pub team : OrgNode
team = record (draft "Team" "b" "e3") {
  id = "c";
  path = "/a/b/c";
  depth = pos 2;
  create_at = 3;
  update_at = 3;
}

abbrev pub empty_db : Db
empty_db = record {
  nodes = [];
  members = [];
  mappings = [];
  sync_logs = [];
  audit_logs = [];
  clock_reads = 0;
  ids_drawn = 0;
}

pub no_nodes-IsTree : IsTree []
unfolding find_node
no_nodes-IsTree = record {
  keys = tt;
  placed = λ id n e. cc e;
  segment = λ id n e. cc e;
  plain = λ id n e. cc e;
}

abbrev pub org_db : Db
org_db = record empty_db {
  nodes = company ∷ department ∷ team ∷ [];
  clock_reads = 3;
  ids_drawn = 3;
}

-- The organisation is what three calls of CreateNode make of the empty table.
abbrev created : Db
created = after (create_node host (draft "Team" "b" "e3")) (
    after (create_node host (draft "Department" "a" "e2"))
      (after (create_node host (draft "Company" "" "e1")) empty_db))

created_org : created ≡ org_db
unfolding create_node place_node insert_node node_pre_save find_node ◌+ℤ◌
created_org = refl

pub org_db-IsTree : IsTree org_db.nodes
org_db-IsTree =
    subst (λ db. IsTree db.nodes) created_org
      (create_node-IsTree host host-IsSane (draft "Team" "b" "e3") _ (
        create_node-IsTree host host-IsSane (draft "Department" "a" "e2") _
          (create_node-IsTree host host-IsSane (draft "Company" "" "e1") empty_db no_nodes-IsTree)))

-- In the department: "ann" is a manager, "bob" was a member, and "eve" comes from the source "hr".
abbrev pub membership : String → String → String → String → String → ℕ → OrgMember
membership id node_id user_id role external_id delete_at = record {
  id = id;
  node_id = node_id;
  user_id = user_id;
  role = role;
  position = "";
  sort_order = pos 0;
  source = "hr";
  external_id = external_id;
  create_at = 1;
  update_at = 1;
  delete_at = delete_at;
}

abbrev pub ann : OrgMember
ann = membership "m1" "b" "ann" "manager" "" 0

abbrev pub bob : OrgMember
bob = membership "m2" "b" "bob" "member" "" 2

abbrev pub eve : OrgMember
eve = membership "m3" "b" "eve" "member" "x1" 0

-- A deleted membership of "eve" in the company.
abbrev pub former_eve : OrgMember
former_eve = membership "m4" "a" "eve" "member" "" 2

abbrev pub staffed_db : Db
staffed_db = record org_db { members = ann ∷ bob ∷ eve ∷ former_eve ∷ [] }
