-- ===== src/Store/Tree/Invariant.antt =====
-- The invariant of org_directory_nodes: each live node hangs under a live parent or is a root, and its
-- path and depth are the parent's with one more segment.
use mattermost_plugin_org_di.Common.{
  ℕ, ℤ, String, ◌++◌, ◌==◌, ◌≡◌, refl, ap, sym, ◌∙◌, subst, Bool, true, false, Option, none, some,
  List, [], ◌∷◌, any, ◌⊎◌, inl, inr, pos, ◌+ℤ◌, arith, eqb, &&-left, &&-right, if◌then◌else◌,
  ==-path,
}
use mathlib.Core.Option
use mattermost_plugin_org_di.Common.Sql.{update, select_row-test, select_row-update}
use mattermost_plugin_org_di.Common.Text.{is_path_text, is_segment, has_slash, last_segment}
use mattermost_plugin_org_di.Common.Text.Laws.{last_segment-append, last_segment-slash}
use mattermost_plugin_org_di.Model.{OrgNode}
use mattermost_plugin_org_di.Store.Nodes.Rows.{is_live, find_node}

abbrev pub IsRoot : OrgNode → Type 0
IsRoot n = (n.parent_id ≡ "") × (n.path ≡ "/" ++ n.id) × (n.depth ≡ pos 0)

abbrev pub IsChild : OrgNode → OrgNode → Type 0
IsChild p n = (n.path ≡ p.path ++ ("/" ++ n.id)) × (n.depth ≡ p.depth +ℤ pos 1)

-- The node is a root, or a child of the live node that its parent_id names.
abbrev pub IsPlaced : List OrgNode → OrgNode → Type 0
IsPlaced rows n = IsRoot n ⊎ ((p : OrgNode) × (find_node n.parent_id rows ≡ some p) × IsChild p n)

-- PRIMARY KEY(id)
abbrev pub HasKeys : List OrgNode → Type 0
HasKeys [] = Unit {0}
HasKeys (r ∷ rs) = (any (λ x. x.id == r.id) rs ≡ false) × HasKeys rs

pub record IsTree (rows : List OrgNode) : Type 0 where
  pub keys : HasKeys rows
  pub placed : (id : String) (n : OrgNode) → find_node id rows ≡ some n → IsPlaced rows n
  pub segment : (id : String) (n : OrgNode) → find_node id rows ≡ some n → is_segment n.id ≡ true
  pub plain : (id : String) (n : OrgNode) → find_node id rows ≡ some n → is_path_text n.path ≡ true

-- What the search for a live node returns has the id, and is live.
pub find_node-id :
    (id : String) (rows : List OrgNode) (n : OrgNode) → find_node id rows ≡ some n → n.id ≡ id
unfolding find_node
find_node-id id rows n e = ==-path _ _ (&&-left _ _ (select_row-test _ rows n e))

pub find_node-live :
    (id : String) (rows : List OrgNode) (n : OrgNode)
    → find_node id rows ≡ some n
    → is_live n ≡ true
unfolding find_node
find_node-live id rows n e = &&-right (n.id == id) _ (select_row-test _ rows n e)

pub segment-has_slash : (s : String) → is_segment s ≡ true → has_slash s ≡ false
unfolding is_segment
segment-has_slash s h = ground arith

-- An UPDATE that keeps ids and liveness maps over the search.
pub find_node-update :
    (id : String) (q : OrgNode → Bool) (f : OrgNode → OrgNode) (rows : List OrgNode)
    → ((r : OrgNode) → (f r).id ≡ r.id)
    → ((r : OrgNode) → is_live (f r) ≡ is_live r)
    → find_node id (update q f rows) ≡ Option.map (λ r. if q r then f r else r) (find_node id rows)
unfolding find_node
find_node-update id q f rows same_id same_live =
    select_row-update _ q f rows (λ r. cc (same_id r, same_live r))

-- The last segment of a placed node's path is its id.
pub IsPlaced-last_segment :
    (rows : List OrgNode) (n : OrgNode)
    → IsPlaced rows n
    → is_segment n.id ≡ true
    → last_segment n.path ≡ n.id
IsPlaced-last_segment rows n (inl root) h =
    ap last_segment root.1 ∙ last_segment-slash n.id (segment-has_slash n.id h)
IsPlaced-last_segment rows n (inr (p, e, child)) h =
    ap last_segment child.0 ∙ last_segment-append p.path n.id (segment-has_slash n.id h)

-- Two live nodes with one path are one node.
pub same_path :
    {rows : List OrgNode}
    → IsTree rows
    → (i j : String) (m n : OrgNode) → find_node i rows ≡ some m
    → find_node j rows ≡ some n
    → m.path ≡ n.path
    → m.id ≡ n.id
same_path {rows} t i j m n em en e =
    sym (IsPlaced-last_segment rows m (t.placed i m em) (t.segment i m em))
    ∙ ap last_segment e
    ∙ IsPlaced-last_segment rows n (t.placed j n en) (t.segment j n en)

any_id-update :
    (id : String) (q : OrgNode → Bool) (f : OrgNode → OrgNode) (rows : List OrgNode)
    → ((r : OrgNode) → (f r).id ≡ r.id)
    → any (λ x. x.id == id) (update q f rows) ≡ any (λ x. x.id == id) rows
any_id-update id q f [] same = refl
any_id-update id q f (r ∷ rs) same = ground (arith, same r, any_id-update id q f rs same)

pub update-HasKeys :
    (q : OrgNode → Bool) (f : OrgNode → OrgNode) (rows : List OrgNode)
    → ((r : OrgNode) → (f r).id ≡ r.id)
    → HasKeys rows
    → HasKeys (update q f rows)
update-HasKeys q f [] same h = tt
update-HasKeys q f (r ∷ rs) same h =
    let kept : (if q r then f r else r).id ≡ r.id = ground (arith, same r) in
    (rw (kept, any_id-update r.id q f rs same) h.0, update-HasKeys q f rs same h.1)

-- The columns that the tree is read from.
abbrev pub shape : OrgNode → String × String × String × ℤ × ℕ
shape n = (n.id, n.parent_id, n.path, n.depth, n.delete_at)

IsPlaced-shape :
    (rows rows' : List OrgNode) (g : OrgNode → OrgNode) (n : OrgNode)
    → ((id : String) → find_node id rows' ≡ Option.map g (find_node id rows))
    → ((r : OrgNode) → shape (g r) ≡ shape r)
    → IsPlaced rows n
    → IsPlaced rows' (g n)
IsPlaced-shape rows rows' g n find same (inl root) = inl (ground (arith, same n))
IsPlaced-shape rows rows' g n find same (inr (p, e, child)) = inr (
  g p,
  (ground (arith, same n, find n.parent_id)),
  (ground (arith, same n, same p), ground (arith, same n, same p)),
)

-- What a mapped search finds comes from a row that the search finds.
pub map_found :
    (g : OrgNode → OrgNode) (o : Option OrgNode) (n : OrgNode)
    → Option.map g o ≡ some n
    → (m : OrgNode) × (o ≡ some m) × (g m ≡ n)
map_found g none n e = cc
map_found g (some m) n e = (m, refl, cc)

-- Rows that keep their shape keep the tree.
module _ (rows rows' : List OrgNode) (g : OrgNode → OrgNode)
    (find : (id : String) → find_node id rows' ≡ Option.map g (find_node id rows))
    (same : (r : OrgNode) → shape (g r) ≡ shape r) (t : IsTree rows) where
  origin :
      (id : String) (n : OrgNode)
      → find_node id rows' ≡ some n
      → (m : OrgNode) × (find_node id rows ≡ some m) × (g m ≡ n)
  origin id n e = map_found g (find_node id rows) n (sym (find id) ∙ e)

  same_shape-IsTree : HasKeys rows' → IsTree rows'
  same_shape-IsTree keys = record {
    keys = keys;
    placed = λ id n e.
        let (m, em, gm) = origin id n e in
        subst (IsPlaced rows') gm (IsPlaced-shape rows rows' g m find same (t.placed id m em));
    segment =
        λ id n e. let (m, em, gm) = origin id n e in ground (arith, gm, same m, t.segment id m em);
    plain =
        λ id n e. let (m, em, gm) = origin id n e in ground (arith, gm, same m, t.plain id m em);
  }

pub update-IsTree :
    (q : OrgNode → Bool) (f : OrgNode → OrgNode) (rows : List OrgNode)
    → ((r : OrgNode) → shape (f r) ≡ shape r)
    → IsTree rows
    → IsTree (update q f rows)
update-IsTree q f rows same t =
    same_shape-IsTree rows (update q f rows) (λ r. if q r then f r else r)
      (λ id.
        find_node-update id q f rows (λ r. ap (λ s. s.0) (same r))
          (λ r. ap (λ s. eqb s.4 0) (same r)))
      (λ r. ground (arith, same r)) t (update-HasKeys q f rows (λ r. ap (λ s. s.0) (same r)) t.keys)

-- No live node has the empty id, by which a root names its parent.
pub no_empty_id :
    {rows : List OrgNode} → IsTree rows → (m : OrgNode) → ¬ (find_node "" rows ≡ some m)
unfolding is_segment is_path_text has_slash
no_empty_id {rows} t m e =
    let named : m.id ≡ "" = find_node-id "" rows m e in
    let empty : is_segment "" ≡ true = subst (λ s. is_segment s ≡ true) named (t.segment "" m e) in
    cc empty
