-- ===== src/Store/Nodes/Children.antt =====
-- GetChildNodes of server/store/node_store.go on a well-formed tree: the children that it finds.
use Prim.Native.String.{len}
use text.Mathlib.TextPositions.{len-append}
use mattermost_plugin_org_di.Common.{
  ℕ, suc, ◌+◌, ◌≤◌, String, ◌++◌, ◌==◌, ◌≡◌, ap, sym, subst, ◌∙◌, Bool, true, false, ◌&&◌, some,
  List, [], ◌∷◌, arith, inl, inr, Bool-cases, eq_iff, eq_refl, if◌then◌else◌, any, ltb, All,
  ==-path, &&-left, &&-right,
}
use mattermost_plugin_org_di.Common.Sql.{select, insert_by, order_by}
use mattermost_plugin_org_di.Model.{OrgNode}
use mattermost_plugin_org_di.Store.Db.{Host, Db}
use mattermost_plugin_org_di.Store.Nodes.Rows.{is_live, find_node}
use mattermost_plugin_org_di.Store.Nodes.Queries.{by_order}
use mattermost_plugin_org_di.Store.Tree.Invariant.{IsTree, HasKeys, IsPlaced, IsChild, no_empty_id}

module _ {ℓ} {A : Type ℓ} where
  pub All-select :
      (P : A → Type 0) (p : A → Bool) (rs : List A)
      → All P rs
      → All (λ r. P r × (p r ≡ true)) (select p rs)
  All-select P p [] h = tt
  All-select P p (r ∷ rs) h = elim (Bool-cases (p r)) [
    | inl e ↦ rw e ((h.0, e), All-select P p rs h.1)
    | inr e ↦ rw e (All-select P p rs h.1)
  ]

  All-insert_by :
      (P : A → Type 0) (before : A → A → Bool) (r : A) (rs : List A)
      → P r
      → All P rs
      → All P (insert_by before r rs)
  All-insert_by P before r [] h k = (h, tt)
  All-insert_by P before r (x ∷ xs) h k = elim (Bool-cases (before x r)) [
    | inl e ↦ rw e (k.0, All-insert_by P before r xs h k.1)
    | inr e ↦ rw e (h, k)
  ]

  pub All-order_by :
      (P : A → Type 0) (before : A → A → Bool) (rs : List A) → All P rs → All P (order_by before rs)
  All-order_by P before [] h = tt
  All-order_by P before (r ∷ rs) h =
      All-insert_by P before r (order_by before rs) h.0 (All-order_by P before rs h.1)

  pub All-map : (P Q : A → Type 0) (rs : List A) → ((r : A) → P r → Q r) → All P rs → All Q rs
  All-map P Q [] f h = tt
  All-map P Q (r ∷ rs) f h = (f r h.0, All-map P Q rs f h.1)

pub some_path : {A : Type 0} → (a b : A) → some a ≡ some b → a ≡ b
some_path a b e = cc e

-- The live row is the one that its id finds.
abbrev pub IsFound : List OrgNode → OrgNode → Type 0
IsFound rows n = is_live n ≡ true → find_node n.id rows ≡ some n

IsFound-weaken :
    (y : OrgNode) (ys zs : List OrgNode)
    → any (λ x. x.id == y.id) zs ≡ false
    → All (IsFound ys) zs
    → All (IsFound (y ∷ ys)) zs
unfolding find_node
IsFound-weaken y ys [] h a = tt
IsFound-weaken y ys (z ∷ zs) h a = (
  λ live. ground (arith, h, a.0 live, eq_iff y.id z.id, eq_iff z.id y.id),
  IsFound-weaken y ys zs (ground (arith, h)) a.1,
)

pub All-IsFound : (rows : List OrgNode) → HasKeys rows → All (IsFound rows) rows
unfolding find_node
All-IsFound [] h = tt
All-IsFound (x ∷ xs) h =
    (λ live. ground (arith, live, eq_refl x.id), IsFound-weaken x xs xs h.0 (All-IsFound xs h.1))

-- The longest path of the table.
abbrev pub longest : List OrgNode → ℕ
longest [] = 0
longest (r ∷ rs) = let rest = longest rs in if ltb rest (len r.path) then len r.path else rest

pub find_node-longest :
    (id : String) (n : OrgNode) (rows : List OrgNode)
    → find_node id rows ≡ some n
    → len n.path ≤ longest rows
unfolding find_node
find_node-longest id n [] e = cc
find_node-longest id n (r ∷ rs) e = ground (arith, find_node-longest id n rs)

-- A live node below the node `n`.
abbrev pub IsChildOf : List OrgNode → OrgNode → OrgNode → Type 0
IsChildOf rows n c =
    (find_node c.id rows ≡ some c) × (c.parent_id ≡ n.id) × (suc (len n.path) ≤ len c.path)

pub child_path : (p n c : OrgNode) → p ≡ n → IsChild p c → suc (len n.path) ≤ len c.path
child_path p n c same child =
    let path : c.path ≡ n.path ++ ("/" ++ c.id) =
      subst (λ q. c.path ≡ q.path ++ ("/" ++ c.id)) same child.0 in
    let size : len c.path ≡ len n.path + (len "/" + len c.id) =
      ap len path
      ∙ len-append n.path ("/" ++ c.id)
      ∙ ap (λ k. len n.path + k) (len-append "/" c.id) in
    omega (arith, size)

found_child :
    (n c : OrgNode) (rows : List OrgNode)
    → IsTree rows
    → find_node n.id rows ≡ some n
    → find_node c.id rows ≡ some c
    → c.parent_id ≡ n.id
    → IsChildOf rows n c
found_child n c rows t found here up = (here, up, longer (t.placed c.id c here))
  where
    longer : IsPlaced rows c → suc (len n.path) ≤ len c.path
    longer (inl root) =
        absurd (no_empty_id t n (ap (λ x. find_node x rows) (sym root.0 ∙ up) ∙ found))
    longer (inr (p, e, child)) =
        child_path p n c (some_path p n (sym e ∙ ap (λ x. find_node x rows) up ∙ found)) child

pub All-roots :
    (host : Host) (db : Db)
    → IsTree db.nodes
    → All
        (λ c. find_node c.id db.nodes ≡ some c)
        (order_by (by_order host) (select (λ n. (n.parent_id == "") && is_live n) db.nodes))
All-roots host db t = All-order_by _ (by_order host) _ (
    All-map _ _ _ (λ c h. h.0 (&&-right (c.parent_id == "") _ h.1))
      (All-select (IsFound db.nodes) _ db.nodes (All-IsFound db.nodes t.keys)))

pub All-children :
    (host : Host) (n : OrgNode) (db : Db)
    → IsTree db.nodes
    → find_node n.id db.nodes ≡ some n
    → All
        (IsChildOf db.nodes n)
        (order_by (by_order host) (select (λ c. (c.parent_id == n.id) && is_live c) db.nodes))
All-children host n db t found = All-order_by _ (by_order host) _ (
    All-map _ _ _
      (λ c h.
        found_child n c db.nodes t found (h.0 (&&-right (c.parent_id == n.id) _ h.1))
          (==-path c.parent_id n.id (&&-left _ _ h.1)))
      (All-select (IsFound db.nodes) _ db.nodes (All-IsFound db.nodes t.keys)))
