-- ===== src/Store/Members/Add.antt =====
-- AddMember of server/store/member_store.go: what it answers and what it leaves.
use mathlib.Core.Option
use mattermost_plugin_org_di.Common.{
  suc, String, ◌==◌, ◌≡◌, refl, ap, sym, ◌∙◌, Bool, true, false, ◌||◌, not, Option, none, some,
  List, [], ◌∷◌, arith, eq_refl, if◌then◌else◌, any, Option-cases, after, reply, ok, err, wrapped,
  unique_violation, inl, inr,
}
use mattermost_plugin_org_di.Common.Sql.{update, append_row}
use mattermost_plugin_org_di.Model.{OrgMember, member_pre_save}
use mattermost_plugin_org_di.Store.Db.{Host, Db}
use mattermost_plugin_org_di.Store.Members.Rows.{is_live, at_relation, find_active, find_deleted}
use mattermost_plugin_org_di.Store.Members.Save.{add_member, restore_or_insert, revived}
use mattermost_plugin_org_di.Store.Members.Keys.{
  HasRelations, find_relation, keep, find_active-relation, find_deleted-relation,
  update-HasRelations, find_relation-update, append_row-HasRelations, find_relation-append_row,
  any_of_none,
}

-- The id that the next insertion draws is not in the table yet.
abbrev pub IsFresh : Host → Db → Type 0
IsFresh host db = any (λ r. r.id == host.new_id db.ids_drawn) db.members ≡ false

any_or :
    (p q : OrgMember → Bool) (rows : List OrgMember)
    → any p rows ≡ false
    → any q rows ≡ false
    → any (λ r. p r || q r) rows ≡ false
any_or p q [] h k = refl
any_or p q (r ∷ rs) h k = ground (arith, any_or p q rs)

any_or_right :
    (p q : OrgMember → Bool) (rows : List OrgMember)
    → any q rows ≡ true
    → any (λ r. p r || q r) rows ≡ true
any_or_right p q [] k = cc
any_or_right p q (r ∷ rs) k = ground (arith, any_or_right p q rs)

-- The relation is taken by a live row.
abbrev pub IsActive : Db → String → String → OrgMember → Type 0
IsActive db node_id user_id a = find_active node_id user_id db.members ≡ some a

pub any_of_some :
    (node_id user_id : String) (a : OrgMember) (rows : List OrgMember)
    → find_relation node_id user_id rows ≡ some a
    → any (at_relation node_id user_id) rows ≡ true
unfolding find_relation
any_of_some node_id user_id a [] e = cc
any_of_some node_id user_id a (r ∷ rs) e = ground (arith, any_of_some node_id user_id a rs)

-- The state in which the rows are written: the clock has been read.
abbrev pub timed : Db → Db
timed db = record db { clock_reads = suc db.clock_reads }

abbrev pub stamped : Host → OrgMember → Db → OrgMember
stamped host m db = record (member_pre_save m) {
  id = host.new_id db.ids_drawn;
  create_at = host.clock db.clock_reads;
  update_at = host.clock db.clock_reads;
}

-- The three ways of AddMember.
pub add_member-refused :
    (host : Host) (m : OrgMember) (db : Db)
    → find_deleted m.node_id m.user_id db.members ≡ none
    → any (at_relation m.node_id m.user_id) db.members ≡ true
    → add_member host m db ≡ (
      err (wrapped "failed to add member" unique_violation),
      record (timed db) { ids_drawn = suc db.ids_drawn },
    )
unfolding add_member restore_or_insert member_pre_save
add_member-refused host m db none_deleted taken = rw (
  none_deleted,
  restore_or_insert,
  any_or_right (λ r. r.id == host.new_id db.ids_drawn) (at_relation m.node_id m.user_id) db.members
      taken,
)

pub add_member-inserted :
    (host : Host) (m : OrgMember) (db : Db)
    → find_deleted m.node_id m.user_id db.members ≡ none
    → IsFresh host db
    → any (at_relation m.node_id m.user_id) db.members ≡ false
    → add_member host m db ≡ (
      ok (stamped host m db),
      record (timed db) {
        ids_drawn = suc db.ids_drawn;
        members = append_row db.members (record (stamped host m db) { delete_at = 0 });
      },
    )
unfolding add_member restore_or_insert member_pre_save
add_member-inserted host m db none_deleted fresh free = rw (
  none_deleted,
  restore_or_insert,
  any_or (λ r. r.id == host.new_id db.ids_drawn) (at_relation m.node_id m.user_id) db.members fresh
      free,
)

abbrev pub restored : Host → OrgMember → Db → OrgMember → OrgMember
restored host m db =
    revived (member_pre_save m) (member_pre_save m).external_id (host.clock db.clock_reads)

pub add_member-restored :
    (host : Host) (m old : OrgMember) (db : Db)
    → find_deleted m.node_id m.user_id db.members ≡ some old
    → add_member host m db ≡ (
      ok (record (member_pre_save m) {
        id = old.id;
        update_at = host.clock db.clock_reads;
        create_at = host.clock db.clock_reads;
      }),
      record (timed db) { members = update (λ r. r.id == old.id) (restored host m db) db.members },
    )
unfolding add_member restore_or_insert
add_member-restored host m old db e = rw (e, restore_or_insert)

pub keep-some :
    (p : OrgMember → Bool) (o : Option OrgMember) (a : OrgMember)
    → keep p o ≡ some a
    → (o ≡ some a) × (p a ≡ true)
keep-some p none a e = cc
keep-some p (some m) a e = ground arith

pub keep-none : (p : OrgMember → Bool) (m : OrgMember) → keep p (some m) ≡ none → p m ≡ false
keep-none p m e = ground arith

-- In a table whose relations are unique, AddMember of an active relation is refused by the UNIQUE
-- constraint and leaves the table as it was.
pub add_member-active :
    (host : Host) (m a : OrgMember) (db : Db)
    → HasRelations db.members
    → IsActive db m.node_id m.user_id a
    → (reply (add_member host m) db ≡ err (wrapped "failed to add member" unique_violation))
      × ((after (add_member host m) db).members ≡ db.members)
add_member-active host m a db keys active =
    let (e, live) =
      keep-some is_live (find_relation m.node_id m.user_id db.members) a
        (sym (find_active-relation m.node_id m.user_id db.members keys) ∙ active) in
    let gone : find_deleted m.node_id m.user_id db.members ≡ none =
      find_deleted-relation m.node_id m.user_id db.members keys
      ∙ ap (keep (λ x. not (is_live x))) e
      ∙ ground (arith, live) in
    let refusal =
      add_member-refused host m db gone (any_of_some m.node_id m.user_id a db.members e) in
    (ap (λ r. r.0) refusal, ap (λ r. r.1.members) refusal)

-- AddMember has put a live row in the relation, with the role and the position that it was given.
abbrev pub IsAdded : Host → OrgMember → Db → Type 0
IsAdded host m db =
    (row : OrgMember) × (saved : OrgMember) × (reply (add_member host m) db ≡ ok saved)
    × IsActive (after (add_member host m) db) m.node_id m.user_id row
    × (saved.id ≡ row.id)
    × (row.role ≡ (member_pre_save m).role)
    × (row.position ≡ m.position)

inserted-IsAdded :
    (host : Host) (m : OrgMember) (db : Db)
    → HasRelations db.members
    → IsFresh host db
    → find_relation m.node_id m.user_id db.members ≡ none
    → IsAdded host m db
unfolding member_pre_save
inserted-IsAdded host m db keys fresh e =
    let free = any_of_none m.node_id m.user_id db.members e in
    let done =
      add_member-inserted host m db
        (find_deleted-relation m.node_id m.user_id db.members keys
          ∙ ap (keep (λ x. not (is_live x))) e)
        fresh free in
    let row : OrgMember = record (stamped host m db) { delete_at = 0 } in
    let rows : List OrgMember = append_row db.members row in
    let at_row : at_relation m.node_id m.user_id row ≡ true =
      ground (arith, eq_refl m.node_id, eq_refl m.user_id) in
    (
      row,
      stamped host m db,
      ap (λ r. r.0) done,
      ap (λ r. find_active m.node_id m.user_id r.1.members) done
          ∙ find_active-relation m.node_id m.user_id rows
              (append_row-HasRelations db.members row free keys)
          ∙ ap (keep is_live)
              (find_relation-append_row m.node_id m.user_id db.members row e at_row),
      refl,
      refl,
      refl,
    )

restored-IsAdded :
    (host : Host) (m old : OrgMember) (db : Db)
    → HasRelations db.members
    → find_relation m.node_id m.user_id db.members ≡ some old
    → is_live old ≡ false
    → IsAdded host m db
unfolding member_pre_save
restored-IsAdded host m old db keys e dead =
    let found : find_deleted m.node_id m.user_id db.members ≡ some old =
      find_deleted-relation m.node_id m.user_id db.members keys
      ∙ ap (keep (λ x. not (is_live x))) e
      ∙ ground (arith, dead) in
    let done = add_member-restored host m old db found in
    let rows : List OrgMember = update (λ r. r.id == old.id) (restored host m db) db.members in
    (
      restored host m db old,
      record (member_pre_save m) {
        id = old.id;
        update_at = host.clock db.clock_reads;
        create_at = host.clock db.clock_reads;
      },
      ap (λ r. r.0) done,
      ap (λ r. find_active m.node_id m.user_id r.1.members) done
          ∙ find_active-relation m.node_id m.user_id rows (
              update-HasRelations (λ r. r.id == old.id) (restored host m db) (λ r. (refl, refl))
                db.members keys)
          ∙ ap (keep is_live) (
              find_relation-update (λ r. r.id == old.id) (restored host m db) (λ r. (refl, refl))
                m.node_id m.user_id db.members
              ∙ ap (Option.map (λ r. if r.id == old.id then restored host m db r else r)) e)
          ∙ ground (arith, eq_refl old.id),
      refl,
      refl,
      refl,
    )

-- In a table whose relations are unique, and with a new id that is fresh, AddMember succeeds where
-- the relation is not active: it leaves an active row of the relation, with the id that it answers
-- and the role and position that it was given.
pub add_member-inactive :
    (host : Host) (m : OrgMember) (db : Db)
    → HasRelations db.members
    → IsFresh host db
    → find_active m.node_id m.user_id db.members ≡ none
    → IsAdded host m db
add_member-inactive host m db keys fresh inactive =
    elim (Option-cases (find_relation m.node_id m.user_id db.members)) [
      | inl e ↦ inserted-IsAdded host m db keys fresh e
      | inr (old, e) ↦ restored-IsAdded host m old db keys e (
          keep-none is_live old (
            ap (keep is_live) (sym e)
            ∙ sym (find_active-relation m.node_id m.user_id db.members keys)
            ∙ inactive))
    ]
