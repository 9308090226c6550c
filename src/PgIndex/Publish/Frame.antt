-- ===== src/PgIndex/Publish/Frame.antt =====
-- What the statements of `PgIndexProvider::publish` leave as it is
-- (crates/freighter-pg-index/src/lib.rs): the versions, and the id of the crate that is published.
use freighter.Base.{
  ◌≡◌, refl, ℕ, ◌&&◌, Option, none, some, List, [], ◌∷◌, ◌++◌, Text, text_eq, text_beq, eqb,
  Bool-cases, Option-cases, inl, inr, arith, any, text_beq_iff, if◌then◌else◌,
}
use freighter.PgIndex.Tables.{
  CrateRow, VersionRow, DependencyRow, Tables, find_crate, update_row, new_crate,
  get_or_insert_crate, update_crate, insert_dependency, insert_feature,
}
use freighter.PgIndex.Tables.Names.{
  find_name, insert_keyword, insert_category, insert_crate_category, insert_crate_keyword,
  remove_crate_category, remove_crate_keyword,
}
use freighter.PgIndex.Triples.{Gives}

-- The crate `name` of this registry has the id `id`.
abbrev pub HasId : Text → ℕ → List CrateRow → Type 0
HasId name id rows = (c : CrateRow) × (find_crate name [] rows ≡ some c) × (c.id ≡ id)

-- The crate has its id, and the versions are these.
abbrev pub Frame : Text → ℕ → List VersionRow → Tables → Type 0
Frame name id versions t = HasId name id t.crates × (t.versions ≡ versions)

-- A change of a row that keeps what the row is found by.
abbrev KeepsKey : (CrateRow → CrateRow) → Type 0
KeepsKey f =
    (c : CrateRow) → ((f c).name ≡ c.name) × ((f c).registry ≡ c.registry) × ((f c).id ≡ c.id)

HasId-cons :
    (name : Text) (id : ℕ) (r r' : CrateRow) (rows rows' : List CrateRow)
    → (r'.name ≡ r.name) × (r'.registry ≡ r.registry) × (r'.id ≡ r.id)
    → (HasId name id rows → HasId name id rows')
    → HasId name id (r ∷ rows)
    → HasId name id (r' ∷ rows')
unfolding find_crate
HasId-cons name id r r' rows rows' key later (c, found, e) =
    elim (Bool-cases (text_beq r.name name && text_beq r.registry [])) [
      | inl here ↦ (r', ground arith, ground arith)
      | inr there ↦ let (c', found', e') = later (c, ground arith, e) in (c', ground arith, e')
    ]

updated_key :
    (other : ℕ) (f : CrateRow → CrateRow) (r : CrateRow)
    → KeepsKey f
    → let r' : CrateRow = if eqb r.id other then f r else r in
      (r'.name ≡ r.name) × (r'.registry ≡ r.registry) × (r'.id ≡ r.id)
updated_key other f r k = elim (Bool-cases (eqb r.id other)) [
  | inl same ↦ rw same (k r)
  | inr differs ↦ rw differs (refl, refl, refl)
]

HasId-update_row :
    (name : Text) (id other : ℕ) (f : CrateRow → CrateRow) (rows : List CrateRow)
    → KeepsKey f
    → HasId name id rows
    → HasId name id (update_row other f rows)
unfolding update_row
HasId-update_row name id other f [] k h = h
HasId-update_row name id other f (r ∷ rows) k h =
    HasId-cons name id r _ rows _ (updated_key other f r k)
      (HasId-update_row name id other f rows k) h

HasId-append :
    (name : Text) (id : ℕ) (rows more : List CrateRow)
    → HasId name id rows
    → HasId name id (rows ++ more)
unfolding find_crate
HasId-append name id [] more (c, found, e) = absurd (ground arith)
HasId-append name id (r ∷ rows) more h =
    HasId-cons name id r r rows _ (refl, refl, refl) (HasId-append name id rows more) h

-- A row behind rows without the crate.
HasId-last :
    (name : Text) (id : ℕ) (rows : List CrateRow) (c : CrateRow)
    → find_crate name [] rows ≡ none
    → (c.name ≡ name) × (c.registry ≡ []) × (c.id ≡ id)
    → HasId name id (rows ++ c ∷ [])
unfolding find_crate
HasId-last name id [] c h key =
    (c, ground (arith, text_beq_iff c.name name, text_beq_iff c.registry []), ground arith)
HasId-last name id (r ∷ rows) c h key =
    let (c', found, e) = HasId-last name id rows c (ground arith) key in (c', ground arith, e)

-- After the first statement the crate has the id that it gives.
pub get_or_insert_crate-Frame :
    (name : Text) (versions : List VersionRow) (t : Tables)
    → t.versions ≡ versions
    → Gives (λ row. Frame name row.id versions) (get_or_insert_crate name t)
unfolding get_or_insert_crate new_crate
get_or_insert_crate-Frame name versions t kept = elim (Option-cases (find_crate name [] t.crates)) [
  | inl missing ↦
      rw (missing, get_or_insert_crate)
        (HasId-last name t.next_id t.crates _ missing (refl, refl, refl), kept)
  | inr (c, found) ↦
      rw (found, get_or_insert_crate)
        (
          HasId-update_row name c.id c.id _ t.crates (λ r. (refl, refl, refl)) (c, found, refl),
          kept,
        )
]

module _ (name : Text) (id : ℕ) (versions : List VersionRow) where
  pub update_crate-Frame :
      (other : ℕ) (description documentation homepage repository : Option Text) (t : Tables)
      → Frame name id versions t
      → Gives
          (λ _. Frame name id versions)
          (update_crate other description documentation homepage repository t)
  unfolding update_crate
  update_crate-Frame other description documentation homepage repository t (h, kept) =
      (HasId-update_row name id other _ t.crates (λ r. (refl, refl, refl)) h, kept)

  pub insert_dependency-Frame :
      (other registry : Text) (row : ℕ → DependencyRow) (t : Tables)
      → Frame name id versions t
      → Gives (λ _. Frame name id versions) (insert_dependency other registry row t)
  unfolding insert_dependency
  insert_dependency-Frame other registry row t (h, kept) =
      elim (Option-cases (find_crate other registry t.crates)) [
        | inl missing ↦ rw (missing, insert_dependency) (HasId-append name id t.crates _ h, kept)
        | inr (c, found) ↦ rw (found, insert_dependency) (h, kept)
      ]

  pub insert_feature-Frame :
      (version_id : ℕ) (feature : Text) (values : List Text) (t : Tables)
      → Frame name id versions t
      → Gives (λ _. Frame name id versions) (insert_feature version_id feature values t)
  unfolding insert_feature
  insert_feature-Frame version_id feature values t h =
      elim (Bool-cases
        (any (λ f. eqb f.crate_version version_id && text_beq f.name feature) t.features)) [
          | inl twice ↦ rw (twice, insert_feature) tt
          | inr fresh ↦ rw (fresh, insert_feature) h
        ]

  pub insert_keyword-Frame :
      (keyword : Text) (t : Tables)
      → Frame name id versions t
      → Gives (λ _. Frame name id versions) (insert_keyword keyword t)
  unfolding insert_keyword
  insert_keyword-Frame keyword t h = elim (Option-cases (find_name keyword t.keywords)) [
    | inl missing ↦ rw (missing, insert_keyword) h
    | inr (n, found) ↦ rw (found, insert_keyword) h
  ]

  pub insert_category-Frame :
      (category : Text) (t : Tables)
      → Frame name id versions t
      → Gives (λ _. Frame name id versions) (insert_category category t)
  unfolding insert_category
  insert_category-Frame category t h = elim (Option-cases (find_name category t.categories)) [
    | inl missing ↦ rw (missing, insert_category) h
    | inr (n, found) ↦ rw (found, insert_category) h
  ]

  pub insert_crate_keyword-Frame :
      (crate_id n : ℕ) (t : Tables)
      → Frame name id versions t
      → Gives (λ _. Frame name id versions) (insert_crate_keyword crate_id n t)
  unfolding insert_crate_keyword
  insert_crate_keyword-Frame crate_id n t h = h

  pub remove_crate_keyword-Frame :
      (crate_id : ℕ) (gone : Text) (t : Tables)
      → Frame name id versions t
      → Gives (λ _. Frame name id versions) (remove_crate_keyword crate_id gone t)
  unfolding remove_crate_keyword
  remove_crate_keyword-Frame crate_id gone t h = h

  pub insert_crate_category-Frame :
      (crate_id n : ℕ) (t : Tables)
      → Frame name id versions t
      → Gives (λ _. Frame name id versions) (insert_crate_category crate_id n t)
  unfolding insert_crate_category
  insert_crate_category-Frame crate_id n t h = h

  pub remove_crate_category-Frame :
      (crate_id : ℕ) (gone : Text) (t : Tables)
      → Frame name id versions t
      → Gives (λ _. Frame name id versions) (remove_crate_category crate_id gone t)
  unfolding remove_crate_category
  remove_crate_category-Frame crate_id gone t h = h
