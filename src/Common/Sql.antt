-- ===== src/Common/Sql.antt =====
-- The SQL of the store's queries: WHERE, UPDATE, row counts, ORDER BY, LIMIT and OFFSET over a table
-- that is a list of rows, oldest first. Rows that ORDER BY leaves equal keep the table's order.
use mattermost_plugin_org_di.Common.{
  ℕ, suc, ◌≡◌, refl, ap, Bool, true, false, ◌&&◌, not, Option, none, some, List, [], ◌∷◌, arith,
  if◌then◌else◌, take, drop, length,
}
use mathlib.Core.Option

module _ {ℓ} {A : Type ℓ} where
  -- SELECT … WHERE p
  abbrev pub select : (A → Bool) → List A → List A
  select p [] = []
  select p (r ∷ rs) = if p r then r ∷ select p rs else select p rs

  -- QueryRow: the first row that matches.
  abbrev pub select_row : (A → Bool) → List A → Option A
  select_row p [] = none
  select_row p (r ∷ rs) = if p r then some r else select_row p rs

  -- UPDATE … SET f WHERE p
  abbrev pub update : (A → Bool) → (A → A) → List A → List A
  update p f [] = []
  update p f (r ∷ rs) = (if p r then f r else r) ∷ update p f rs

  -- RowsAffected
  abbrev pub affected : (A → Bool) → List A → ℕ
  affected p rs = length (select p rs)

  -- A new row goes to the end of the table.
  abbrev pub append_row : List A → A → List A
  append_row [] r = r ∷ []
  append_row (x ∷ xs) r = x ∷ append_row xs r

  -- Stable insertion by a strict order.
  abbrev pub insert_by : (A → A → Bool) → A → List A → List A
  insert_by before r [] = r ∷ []
  insert_by before r (x ∷ xs) = if before x r then x ∷ insert_by before r xs else r ∷ x ∷ xs

  abbrev pub order_by : (A → A → Bool) → List A → List A
  order_by before [] = []
  order_by before (r ∷ rs) = insert_by before r (order_by before rs)

  -- LIMIT count OFFSET skip
  abbrev pub page_of : ℕ → ℕ → List A → List A
  page_of count skip rs = take count (drop skip rs)

module _ {ℓ} {A : Type ℓ} where
  -- An update that leaves the searched columns alone commutes with the search.
  pub select_row-update :
      (p q : A → Bool) (f : A → A) (rs : List A)
      → ((r : A) → p (f r) ≡ p r)
      → select_row p (update q f rs) ≡ Option.map (λ r. if q r then f r else r) (select_row p rs)
  select_row-update p q f [] keep = refl
  select_row-update p q f (r ∷ rs) keep = ground (arith, keep r, select_row-update p q f rs keep)

  pub select_row-append_row :
      (p : A → Bool) (rs : List A) (r : A)
      → select_row p (append_row rs r)
        ≡ (elim (select_row p rs) [ some x ↦ some x | none ↦ if p r then some r else none ])
  select_row-append_row p [] r = ground arith
  select_row-append_row p (x ∷ xs) r = ground (arith, select_row-append_row p xs r)

  -- What a query returns satisfies its condition.
  pub select_row-test : (p : A → Bool) (rs : List A) (r : A) → select_row p rs ≡ some r → p r ≡ true
  select_row-test p [] r e = ground arith
  select_row-test p (x ∷ xs) r e = ground (arith, select_row-test p xs r)

  -- A stronger condition finds the same row, where that row meets it.
  pub select_row_strengthen :
      (p q : A → Bool) (rs : List A) (r : A)
      → select_row p rs ≡ some r
      → q r ≡ true
      → select_row (λ x. p x && q x) rs ≡ some r
  select_row_strengthen p q [] r e h = ground arith
  select_row_strengthen p q (x ∷ xs) r e h = ground (arith, select_row_strengthen p q xs r)

  -- No row satisfies `q` after an update of all the rows that did.
  pub select-update_none :
      (p q : A → Bool) (f : A → A) (rs : List A)
      → ((r : A) → q (if p r then f r else r) ≡ false)
      → select q (update p f rs) ≡ []
  select-update_none p q f [] h = refl
  select-update_none p q f (r ∷ rs) h = ground (arith, h r, select-update_none p q f rs h)

  -- An update whose condition no row meets changes nothing.
  pub update_none :
      (p : A → Bool) (f : A → A) (rs : List A) → ((r : A) → p r ≡ false) → update p f rs ≡ rs
  update_none p f [] h = refl
  update_none p f (r ∷ rs) h = ground (arith, h r, update_none p f rs h)

  -- What a query finds after an update whose rows it no longer takes.
  pub select-update_hidden :
      (p q : A → Bool) (f : A → A) (rs : List A)
      → ((r : A) → q (f r) ≡ false)
      → select q (update p f rs) ≡ select (λ r. q r && not (p r)) rs
  select-update_hidden p q f [] h = refl
  select-update_hidden p q f (r ∷ rs) h = ground (arith, h r, select-update_hidden p q f rs h)

  -- Queries with equal conditions.
  pub select_cong :
      (p q : A → Bool) (rs : List A) → ((r : A) → p r ≡ q r) → select p rs ≡ select q rs
  select_cong p q [] h = refl
  select_cong p q (r ∷ rs) h = ground (arith, h r, select_cong p q rs h)

  -- What a query finds after an update that leaves the rows it takes alone.
  pub select-update_apart :
      (p q : A → Bool) (f : A → A) (rs : List A)
      → ((r : A) → q (f r) ≡ q r)
      → ((r : A) → (q r && p r) ≡ false)
      → select q (update p f rs) ≡ select q rs
  select-update_apart p q f [] h k = refl
  select-update_apart p q f (r ∷ rs) h k =
      ground (arith, h r, k r, select-update_apart p q f rs h k)

pub length-append_row {ℓ} :
    {A : Type ℓ} (rs : List A) (r : A) → length (append_row rs r) ≡ suc (length rs)
length-append_row [] r = refl
length-append_row (x ∷ xs) r = ap (λ n. suc n) (length-append_row xs r)
