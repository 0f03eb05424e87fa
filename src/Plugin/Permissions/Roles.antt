-- ===== src/Plugin/Permissions/Roles.antt =====
-- The roles of server/permissions.go, and who has them on a node.
use mattermost_plugin_org_di.Common.{
  String, ◌==◌, ◌≡◌, refl, Bool, true, false, ◌↔◌, some, List, [], ◌∷◌, arith, Option-cases,
  Bool-cases, inl, inr, sym, subst, ==-path,
}
use mattermost_plugin_org_di.Model.{OrgNode, OrgMember}
use mattermost_plugin_org_di.Store.Db.{Db}
use mattermost_plugin_org_di.Store.Nodes.Rows.{find_node}
use mattermost_plugin_org_di.Store.Members.Rows.{find_active}
use mattermost_plugin_org_di.Plugin.Permissions.{
  is_role_sufficient, role_weight, allows_at, allows_any, walk, check_node_permission,
}

-- The roles that the handlers require, and how they are written.
pub data Role : Type 0 where
  member manager admin : Role

abbrev pub role_name : Role → String
role_name member = "member"
role_name manager = "manager"
role_name admin = "admin"

-- `Covers text role`: a membership with this text has the role.
pub data Covers : String → Role → Type 0 where
  member_as_member : Covers "member" member
  manager_as_member : Covers "manager" member
  admin_as_member : Covers "admin" member
  manager_as_manager : Covers "manager" manager
  admin_as_manager : Covers "admin" manager
  admin_as_admin : Covers "admin" admin

-- A node that the walk visits: an id between two slashes of the path.
pub data OnWalk (id : String) : List String → Type 0 where
  here : {ids : List String} → OnWalk id (id ∷ ids)
  there : {i : String} {ids : List String} → OnWalk id ids → OnWalk id (i ∷ ids)

-- Why a user may act on a node in a role.
pub data Granted (is_system_admin : String → Bool) (user id : String) (role : Role) (db : Db)
    : Type 0 where
  by_system : is_system_admin user ≡ true → Granted is_system_admin user id role db
  by_membership :
      (n : OrgNode) (i : String) (m : OrgMember)
      → find_node id db.nodes ≡ some n
      → OnWalk i (walk n)
      → (i == "") ≡ false
      → find_active i user db.members ≡ some m
      → Covers m.role role
      → Granted is_system_admin user id role db

-- What each text covers.
as_admin : (role : Role) → Covers "admin" role
as_admin member = admin_as_member
as_admin manager = admin_as_manager
as_admin admin = admin_as_admin

as_manager :
    (role : Role) → is_role_sufficient "manager" (role_name role) ≡ true → Covers "manager" role
unfolding is_role_sufficient role_weight
as_manager member e = manager_as_member
as_manager manager e = manager_as_manager
as_manager admin e = absurd (ground (arith, e))

as_member :
    (role : Role) → is_role_sufficient "member" (role_name role) ≡ true → Covers "member" role
unfolding is_role_sufficient role_weight
as_member member e = member_as_member
as_member manager e = absurd (ground (arith, e))
as_member admin e = absurd (ground (arith, e))

-- A text that is no role weighs nothing.
no_role :
    (text : String) (role : Role)
    → (text == "admin") ≡ false
    → (text == "manager") ≡ false
    → (text == "member") ≡ false
    → is_role_sufficient text (role_name role) ≡ false
unfolding is_role_sufficient role_weight
no_role text member a b c = rw (a, b, c) refl
no_role text manager a b c = rw (a, b, c) refl
no_role text admin a b c = rw (a, b, c) refl

-- A text covers the roles for which isRoleSufficient accepts it, and no others.
sufficient-Covers :
    (text : String) (role : Role)
    → is_role_sufficient text (role_name role) ≡ true
    → Covers text role
sufficient-Covers text role e = elim (Bool-cases (text == "admin")) [
  | inl a ↦ subst (λ t. Covers t role) (sym (==-path _ _ a)) (as_admin role)
  | inr a ↦ elim (Bool-cases (text == "manager")) [
    | inl b ↦
        subst (λ t. is_role_sufficient t (role_name role) ≡ true → Covers t role)
          (sym (==-path _ _ b)) (as_manager role) e
    | inr b ↦ elim (Bool-cases (text == "member")) [
      | inl c ↦
          subst (λ t. is_role_sufficient t (role_name role) ≡ true → Covers t role)
            (sym (==-path _ _ c)) (as_member role) e
      | inr c ↦ absurd (ground (arith, e, no_role text role a b c))
    ]
  ]
]

Covers-sufficient :
    (text : String) (role : Role)
    → Covers text role
    → is_role_sufficient text (role_name role) ≡ true
unfolding is_role_sufficient role_weight
Covers-sufficient text role member_as_member = refl
Covers-sufficient text role manager_as_member = refl
Covers-sufficient text role admin_as_member = refl
Covers-sufficient text role manager_as_manager = refl
Covers-sufficient text role admin_as_manager = refl
Covers-sufficient text role admin_as_admin = refl

-- A membership on the walk that covers the role.
data Found (user : String) (role : Role) (db : Db) (ids : List String) : Type 0 where
  found :
      (i : String) (m : OrgMember)
      → OnWalk i ids
      → (i == "") ≡ false
      → find_active i user db.members ≡ some m
      → Covers m.role role
      → Found user role db ids

allows_at-Found :
    (user : String) (role : Role) (id : String) (ids : List String) (db : Db)
    → allows_at user (role_name role) id db ≡ true
    → Found user role db (id ∷ ids)
unfolding allows_at
allows_at-Found user role id ids db h = elim (Option-cases (find_active id user db.members)) [
  | inl e ↦ absurd (ground (arith, h, e))
  | inr (m, e) ↦
      found id m here (ground (arith, h)) e (sufficient-Covers m.role role (ground (arith, h, e)))
]

allows_any-Found :
    (user : String) (role : Role) (ids : List String) (db : Db)
    → allows_any user (role_name role) ids db ≡ true
    → Found user role db ids
unfolding allows_any
allows_any-Found user role [] db h = absurd (ground (arith, h))
allows_any-Found user role (id ∷ ids) db h =
    elim (Bool-cases (allows_at user (role_name role) id db)) [
      | inl e ↦ allows_at-Found user role id ids db e
      | inr e ↦ later (allows_any-Found user role ids db (ground (arith, h, e)))
    ]
  where
    later : Found user role db ids → Found user role db (id ∷ ids)
    later (found i m on named active covers) = found i m (there on) named active covers

found-allows_any :
    (user : String) (role : Role) (i : String) (m : OrgMember) (ids : List String) (db : Db)
    → OnWalk i ids
    → (i == "") ≡ false
    → find_active i user db.members ≡ some m
    → Covers m.role role
    → allows_any user (role_name role) ids db ≡ true
unfolding allows_any allows_at
found-allows_any user role i m [] db on named active covers = elim on [ ]
found-allows_any user role i m (_ ∷ ids) db here named active covers =
    rw (named, active, Covers-sufficient m.role role covers) refl
found-allows_any user role i m (j ∷ ids) db (there on) named active covers =
    ground (arith, found-allows_any user role i m ids db on named active covers)

-- A user passes checkNodePermission for one of the roles member, manager and admin on a node just
-- where the user is a system administrator, or the node is found and an id on the walk of its path
-- has an active membership of the user whose role covers it: admin covers all three, manager all
-- but admin, member only itself, and any other text none.
pub check_node_permission-Granted :
    (is_system_admin : String → Bool) (user id : String) (role : Role) (db : Db)
    → (check_node_permission is_system_admin user id (role_name role) db ≡ true)
      ↔ Granted is_system_admin user id role db
unfolding check_node_permission
check_node_permission-Granted is_system_admin user id role db = (why, may)
  where
    from :
        (n : OrgNode)
        → find_node id db.nodes ≡ some n
        → Found user role db (walk n)
        → Granted is_system_admin user id role db
    from n e (found i m on named active covers) = by_membership n i m e on named active covers

    why :
        check_node_permission is_system_admin user id (role_name role) db ≡ true
        → Granted is_system_admin user id role db
    why h = elim (Bool-cases (is_system_admin user)) [
      | inl e ↦ by_system e
      | inr e ↦ elim (Option-cases (find_node id db.nodes)) [
        | inl e1 ↦ absurd (ground (arith, h, e, e1))
        | inr (n, e1) ↦
            from n e1 (allows_any-Found user role (walk n) db (ground (arith, h, e, e1)))
      ]
    ]

    may :
        Granted is_system_admin user id role db
        → check_node_permission is_system_admin user id (role_name role) db ≡ true
    may (by_system e) = rw e refl
    may (by_membership n i m e on named active covers) =
        ground (arith, e, found-allows_any user role i m (walk n) db on named active covers)
