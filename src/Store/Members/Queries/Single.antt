-- ===== src/Store/Members/Queries/Single.antt =====
-- server/store/member_store.go: GetMembersForNodes of one node.
use mathlib.Core.List
use mattermost_plugin_org_di.Common.{
  String, ◌==◌, ◌≡◌, refl, ap, ◌∙◌, Bool, false, ◌&&◌, List, [], ◌∷◌, ℤ, arith, contains, All, map,
  eq_refl, ==-path, Bool-cases, inl, inr, &&-left,
}
use mattermost_plugin_org_di.Common.Sql.{order_by, insert_by}
use mattermost_plugin_org_di.Model.{OrgMember}
use mattermost_plugin_org_di.Store.Db.{Host, Db}
use mattermost_plugin_org_di.Store.Paging.{paged}
use mattermost_plugin_org_di.Store.Members.Rows.{is_live}
use mattermost_plugin_org_di.Store.Members.Queries.{
  User, MemberWithUser, with_users, by_order, by_node, get_members, get_members_for_nodes,
}

abbrev IsAt : String → MemberWithUser → Type 0
IsAt node_id r = r.member.node_id ≡ node_id

All-append :
    (P : MemberWithUser → Type 0) (xs ys : List MemberWithUser)
    → All P xs
    → All P ys
    → All P (List.◌++◌ xs ys)
All-append P [] ys h k = k
All-append P (x ∷ xs) ys h k = (h.0, All-append P xs ys h.1 k)

joined-IsAt :
    (node_id : String) (m : OrgMember) (us : List User)
    → m.node_id ≡ node_id
    → All (IsAt node_id) (map (λ u. record { member = m; user = u }) us)
joined-IsAt node_id m [] e = tt
joined-IsAt node_id m (u ∷ us) e = (e, joined-IsAt node_id m us e)

with_users-IsAt :
    (node_id : String) (users : List User) (ms : List OrgMember)
    → All (IsAt node_id) (with_users users (λ m. m.node_id == node_id) ms)
unfolding with_users
with_users-IsAt node_id users [] = tt
with_users-IsAt node_id users (m ∷ ms) = elim (Bool-cases ((m.node_id == node_id) && is_live m)) [
  | inl e ↦ rw e (
      All-append (IsAt node_id) _ _
        (joined-IsAt node_id m _ (==-path m.node_id node_id (&&-left _ _ e)))
        (with_users-IsAt node_id users ms))
  | inr e ↦ rw e (with_users-IsAt node_id users ms)
]

with_users_cong :
    (p q : OrgMember → Bool) (users : List User) (ms : List OrgMember)
    → ((m : OrgMember) → p m ≡ q m)
    → with_users users p ms ≡ with_users users q ms
unfolding with_users
with_users_cong p q users [] h = refl
with_users_cong p q users (m ∷ ms) h = ground (arith, h m, with_users_cong p q users ms h)

module _ (host : Host) (users : List User)
    (irreflexive : (s : String) → host.text_before s s ≡ false) (node_id : String) where
  same_order :
      (a b : MemberWithUser)
      → IsAt node_id a
      → IsAt node_id b
      → by_node host users a b ≡ by_order host users a b
  same_order a b ea eb = rw (ea, eb, irreflexive node_id, eq_refl node_id) refl

  insert-IsAt :
      (r : MemberWithUser) (rs : List MemberWithUser)
      → IsAt node_id r
      → All (IsAt node_id) rs
      → (insert_by (by_node host users) r rs ≡ insert_by (by_order host users) r rs)
        × All (IsAt node_id) (insert_by (by_order host users) r rs)
  insert-IsAt r [] e h = (refl, (e, tt))
  insert-IsAt r (x ∷ xs) e h =
      let (same, all) = insert-IsAt r xs e h.1 in
      elim (Bool-cases (by_order host users x r)) [
        | inl before ↦
            (rw (same_order x r h.0 e, before) (ap (λ l. x ∷ l) same), rw before (h.0, all))
        | inr after ↦ (rw (same_order x r h.0 e, after) refl, rw after (e, h))
      ]

  order-IsAt :
      (rs : List MemberWithUser)
      → All (IsAt node_id) rs
      → (order_by (by_node host users) rs ≡ order_by (by_order host users) rs)
        × All (IsAt node_id) (order_by (by_order host users) rs)
  order-IsAt [] h = (refl, tt)
  order-IsAt (r ∷ rs) h =
      let (same, all) = order-IsAt rs h.1 in
      let (one, every) = insert-IsAt r (order_by (by_order host users) rs) h.0 all in
      (ap (insert_by (by_node host users) r) same ∙ one, every)

  -- Where the database sorts no text before itself, GetMembersForNodes of one node is GetMembers of
  -- it, for every page.
  pub get_members_for_nodes-single :
      (page per_page : ℤ) (db : Db)
      → get_members_for_nodes host users (node_id ∷ []) page per_page db
        ≡ get_members host users node_id page per_page db
  unfolding get_members_for_nodes get_members
  get_members_for_nodes-single page per_page db =
      ap (λ rows. paged page per_page rows db)
        (ap (order_by (by_node host users)) (
            with_users_cong (λ m. contains m.node_id (node_id ∷ [])) (λ m. m.node_id == node_id)
              users db.members (λ m. ground arith))
          ∙ (order-IsAt _ (with_users-IsAt node_id users db.members)).0)
