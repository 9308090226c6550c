-- ===== src/PgIndex/Tables/Names.antt =====
-- The statements on keywords and categories, and on their links with crates
-- (crates/freighter-pg-index/sql/publish).
use freighter.Base.{
  ℕ, suc, not, ◌&&◌, Option, none, some, List, [], ◌∷◌, ◌++◌, map, Text, text_eq, text_beq, eqb,
  any, retain, if◌then◌else◌,
}
use freighter.PgIndex.Tables.{NameRow, LinkRow, Statement}

unfoldable pub find_name : Text → List NameRow → Option ℕ
find_name name [] = none
find_name name (r ∷ rows) = if text_beq r.name name then some r.id else find_name name rows

-- publish/insert-keyword.sql and insert-category.sql: the id of the name, which is entered if it is
-- not there.
unfoldable pub insert_keyword : Text → Statement ℕ
insert_keyword name t = elim (find_name name t.keywords) [
  | some id ↦ some (id, t)
  | none ↦ some (
    t.next_id,
    record t {
      keywords = t.keywords ++ record { id = t.next_id; name = name } ∷ [];
      next_id = suc t.next_id;
    },
  )
]

unfoldable pub insert_category : Text → Statement ℕ
insert_category name t = elim (find_name name t.categories) [
  | some id ↦ some (id, t)
  | none ↦ some (
    t.next_id,
    record t {
      categories = t.categories ++ record { id = t.next_id; name = name } ∷ [];
      next_id = suc t.next_id;
    },
  )
]

unfoldable pub insert_crate_keyword : ℕ → ℕ → Statement (Unit {0})
insert_crate_keyword crate_id id t = some (
  tt,
  record t {
    crate_keywords = t.crate_keywords ++ record { «crate» = crate_id; name_id = id } ∷ [];
  },
)

unfoldable pub insert_crate_category : ℕ → ℕ → Statement (Unit {0})
insert_crate_category crate_id id t = some (
  tt,
  record t {
    crate_categories = t.crate_categories ++ record { «crate» = crate_id; name_id = id } ∷ [];
  },
)

-- The names that a crate is linked to.
unfoldable pub linked_names : ℕ → List LinkRow → List NameRow → List Text
linked_names crate_id [] names = []
linked_names crate_id (l ∷ links) names =
    if eqb l.«crate» crate_id
    then map (λ n. n.name) (retain (λ n. eqb n.id l.name_id) names)
      ++ linked_names crate_id links names
    else linked_names crate_id links names

-- publish/get-crate-keywords.sql and get-crate-categories.sql
unfoldable pub get_crate_keywords : ℕ → Statement (List Text)
get_crate_keywords crate_id t = some (linked_names crate_id t.crate_keywords t.keywords, t)

unfoldable pub get_crate_categories : ℕ → Statement (List Text)
get_crate_categories crate_id t = some (linked_names crate_id t.crate_categories t.categories, t)

-- The links that a `delete` of a name leaves.
unfoldable pub unlink : ℕ → Text → List NameRow → List LinkRow → List LinkRow
unlink crate_id name names = retain (λ l.
    not (eqb l.«crate» crate_id && any (λ n. eqb n.id l.name_id && text_beq n.name name) names))

-- publish/remove-crate-keyword.sql and remove-crate-category.sql
unfoldable pub remove_crate_keyword : ℕ → Text → Statement (Unit {0})
remove_crate_keyword crate_id name t =
    some (tt, record t { crate_keywords = unlink crate_id name t.keywords t.crate_keywords })

unfoldable pub remove_crate_category : ℕ → Text → Statement (Unit {0})
remove_crate_category crate_id name t =
    some (tt, record t { crate_categories = unlink crate_id name t.categories t.crate_categories })
