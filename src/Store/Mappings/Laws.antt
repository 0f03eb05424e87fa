-- ===== src/Store/Mappings/Laws.antt =====
-- server/store/user_mapping_store.go: what UpsertUserMapping and DeleteUserMapping change.
use mathlib.Core.Option
use mattermost_plugin_org_di.Common.{
  ℕ, suc, String, ◌==◌, ◌≡◌, refl, ap, ◌∙◌, Bool, true, false, ◌&&◌, not, Option, none, some, List,
  [], ◌∷◌, arith, if◌then◌else◌, any, after, Option-cases, Bool-cases, ==-path, inl, inr, eq_refl,
  &&-left, &&-right,
}
use mattermost_plugin_org_di.Common.Sql.{
  select_row, update, append_row, select_row-append_row, select_row-update,
}
use mattermost_plugin_org_di.Model.{UserMapping}
use mattermost_plugin_org_di.Store.Db.{Host, Db, IsSane}
use mattermost_plugin_org_di.Store.Mappings.{
  is_live, at_user, find_mapping, insert_mapping, save_mapping, upsert_user_mapping,
  delete_user_mapping, remapped, deleted_at,
}

-- The id that model.NewId() gives next is the id of no mapping.
abbrev pub IsFresh : Host → Db → Type 0
IsFresh host db = any (λ r. r.id == host.new_id db.ids_drawn) db.mappings ≡ false

-- The Mattermost user of an external user.
abbrev pub mm_user : String → String → Db → Option String
mm_user source external_user_id db =
    Option.map (λ m. m.mm_user_id) (find_mapping source external_user_id db.mappings)

upsert-some :
    (host : Host) (m old : UserMapping) (db : Db)
    → find_mapping m.source m.external_user_id db.mappings ≡ some old
    → (after (upsert_user_mapping host m) db).mappings
      ≡ update (λ r. r.id == old.id) (remapped m (host.clock db.clock_reads)) db.mappings
unfolding upsert_user_mapping save_mapping
upsert-some host m old db e =
    ap
      (λ o.
        (save_mapping host m (host.clock db.clock_reads) o
          (record db { clock_reads = suc db.clock_reads })).1.mappings)
      e

abbrev inserted : Host → UserMapping → Db → UserMapping
inserted host m db = record m {
  id = host.new_id db.ids_drawn;
  create_at = host.clock db.clock_reads;
  update_at = host.clock db.clock_reads;
  delete_at = 0;
}

upsert-none :
    (host : Host) (m : UserMapping) (db : Db)
    → find_mapping m.source m.external_user_id db.mappings ≡ none
    → IsFresh host db
    → (after (upsert_user_mapping host m) db).mappings ≡ append_row db.mappings (inserted host m db)
unfolding upsert_user_mapping save_mapping insert_mapping
upsert-none host m db e fresh =
    ap
      (λ o.
        (save_mapping host m (host.clock db.clock_reads) o
          (record db { clock_reads = suc db.clock_reads })).1.mappings)
      e
    ∙ rw (fresh, insert_mapping)

find-some :
    (m old : UserMapping) (now : ℕ) (rows : List UserMapping)
    → find_mapping m.source m.external_user_id rows ≡ some old
    → find_mapping m.source m.external_user_id (update (λ r. r.id == old.id) (remapped m now) rows)
      ≡ some (remapped m now old)
unfolding find_mapping
find-some m old now rows e =
    select_row-update _ (λ r. r.id == old.id) (remapped m now) rows (λ r. refl)
    ∙ rw (e, eq_refl old.id)

find-none :
    (m new : UserMapping) (rows : List UserMapping)
    → find_mapping m.source m.external_user_id rows ≡ none
    → (at_user m.source m.external_user_id new && is_live new) ≡ true
    → find_mapping m.source m.external_user_id (append_row rows new) ≡ some new
unfolding find_mapping
find-none m new rows e h = select_row-append_row _ rows new ∙ rw (e, h)

-- With a new id that is fresh, after UpsertUserMapping the external user is mapped to the
-- Mattermost user of the mapping, whether there was an active mapping or not.
pub mm_user-upsert :
    (host : Host) (m : UserMapping) (db : Db)
    → IsFresh host db
    → mm_user m.source m.external_user_id (after (upsert_user_mapping host m) db)
      ≡ some m.mm_user_id
mm_user-upsert host m db fresh =
    elim (Option-cases (find_mapping m.source m.external_user_id db.mappings)) [
      | inl e ↦
          ap
            (λ rows. Option.map (λ r. r.mm_user_id) (find_mapping m.source m.external_user_id rows))
            (upsert-none host m db e fresh)
          ∙ ap (Option.map (λ r. r.mm_user_id)) (
              find-none m (inserted host m db) db.mappings e
                (rw (eq_refl m.source, eq_refl m.external_user_id)))
      | inr (old, e) ↦
          ap
            (λ rows. Option.map (λ r. r.mm_user_id) (find_mapping m.source m.external_user_id rows))
            (upsert-some host m old db e)
          ∙ ap (Option.map (λ r. r.mm_user_id))
              (find-some m old (host.clock db.clock_reads) db.mappings e)
    ]

-- No row that the update writes is found after it.
select_row-hidden :
    (p q : UserMapping → Bool) (f : UserMapping → UserMapping) (rows : List UserMapping)
    → ((r : UserMapping) → p (f r) ≡ false)
    → select_row p (update q f rows) ≡ select_row (λ r. p r && not (q r)) rows
select_row-hidden p q f [] h = refl
select_row-hidden p q f (r ∷ rows) h = ground (arith, h r, select_row-hidden p q f rows h)

select_row_cong :
    (p q : UserMapping → Bool) (rows : List UserMapping)
    → ((r : UserMapping) → p r ≡ q r)
    → select_row p rows ≡ select_row q rows
select_row_cong p q [] h = refl
select_row_cong p q (r ∷ rows) h = ground (arith, h r, select_row_cong p q rows h)

select_row-none :
    (p : UserMapping → Bool) (rows : List UserMapping)
    → ((r : UserMapping) → p r ≡ false)
    → select_row p rows ≡ none
select_row-none p [] h = refl
select_row-none p (r ∷ rows) h = ground (arith, h r, select_row-none p rows h)

abbrev left_alone : String → String → String → String → UserMapping → Bool
left_alone source user s u r =
    (at_user s u r && is_live r) && not (at_user source user r && is_live r)

left_alone_same :
    (source user s u : String) (r : UserMapping)
    → ((s == source) && (u == user)) ≡ true
    → left_alone source user s u r ≡ false
left_alone_same source user s u r h =
    let es = ==-path s source (&&-left _ _ h) in
    let eu = ==-path u user (&&-right (s == source) _ h) in rw (es, eu) (ground arith)

left_alone_other :
    (source user s u : String) (r : UserMapping)
    → ((s == source) && (u == user)) ≡ false
    → left_alone source user s u r ≡ (at_user s u r && is_live r)
left_alone_other source user s u r h = elim (Bool-cases (at_user s u r)) [
  | inl e ↦
      let es = ==-path r.source s (&&-left _ _ e) in
      let eu = ==-path r.external_user_id u (&&-right (r.source == s) _ e) in
      let other : at_user source user r ≡ false = rw (es, eu) h in ground arith
  | inr e ↦ ground arith
]

-- On a sane host, after DeleteUserMapping the external user has no active mapping, and the active
-- mapping of any other one is found as it was.
pub find_mapping-delete :
    (host : Host)
    → IsSane host
    → (source user s u : String) (db : Db)
    → find_mapping s u (after (delete_user_mapping host source user) db).mappings
      ≡ (if (s == source) && (u == user) then none else find_mapping s u db.mappings)
unfolding delete_user_mapping find_mapping
find_mapping-delete host sane source user s u db =
    select_row-hidden _ _ (deleted_at (host.clock db.clock_reads)) db.mappings
      (λ r. ground (arith, sane.clock_pos db.clock_reads))
    ∙ elim (Bool-cases ((s == source) && (u == user))) [
      | inl e ↦ select_row-none _ db.mappings (λ r. left_alone_same source user s u r e) ∙ rw e
      | inr e ↦ select_row_cong _ _ db.mappings (λ r. left_alone_other source user s u r e) ∙ rw e
    ]
