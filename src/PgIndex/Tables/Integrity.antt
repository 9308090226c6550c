-- ===== src/PgIndex/Tables/Integrity.antt =====
-- The integrity of the tables of the Postgres index (sql/init-index-db.sql): what one row says of
-- another is there, and no version of a crate stands twice.
use freighter.Base.{
  ℕ, ◌<◌, ◌≡◌, refl, Bool, true, false, ◌&&◌, some, List, [], ◌∷◌, ◌++◌, Text, text_eq, text_beq,
  text_beq_iff, eqb, eqb_iff, any, any-append, All, Bool-cases, inl, inr, arith, ◌≤◌,
}
use freighter.PgIndex.Tables.{
  CrateRow, VersionRow, Tables, find_crate, update_row, NameRow, LinkRow,
}

abbrev pub has_crate : List CrateRow → ℕ → Bool
has_crate rows id = any (λ c. eqb c.id id) rows

abbrev pub has_version_id : List VersionRow → ℕ → Bool
has_version_id rows id = any (λ v. eqb v.id id) rows

-- A row of the same version of the same crate.
abbrev pub same_version : ℕ → Text → VersionRow → Bool
same_version crate_id version v = eqb v.«crate» crate_id && text_beq v.version version

abbrev pub Unique : List VersionRow → Type 0
Unique [] = Unit
Unique (v ∷ vs) = (any (same_version v.«crate» v.version) vs ≡ false) × Unique vs

pub record IsSound (t : Tables) : Type 0 where
  pub crate_ids : All (λ c. c.id < t.next_id) t.crates
  pub version_ids : All (λ v. v.id < t.next_id) t.versions
  pub versions_of_crates : All (λ v. has_crate t.crates v.«crate» ≡ true) t.versions
  pub versions_once : Unique t.versions
  pub features_of_versions : All (λ f. has_version_id t.versions f.crate_version ≡ true) t.features
  pub dependencies_of_versions :
      All (λ d. has_version_id t.versions d.dependent ≡ true) t.dependencies
  pub dependencies_on_crates : All (λ d. has_crate t.crates d.dependency ≡ true) t.dependencies

pub All-weaken :
    {A : Type 0} (P Q : A → Type 0) (xs : List A) → ((x : A) → P x → Q x) → All P xs → All Q xs
All-weaken P Q [] f h = tt
All-weaken P Q (x ∷ xs) f (h, hs) = (f x h, All-weaken P Q xs f hs)

pub any_more :
    {A : Type 0} (p : A → Bool) (xs ys : List A) → any p xs ≡ true → any p (xs ++ ys) ≡ true
any_more p xs ys h = ground (arith, any-append p xs ys)

pub any_last :
    {A : Type 0} (p : A → Bool) (xs : List A) (x : A) → p x ≡ true → any p (xs ++ x ∷ []) ≡ true
any_last p xs x h = ground (arith, any-append p xs (x ∷ []))

pub Unique-append :
    (vs : List VersionRow) (v : VersionRow)
    → Unique vs
    → any (same_version v.«crate» v.version) vs ≡ false
    → Unique (vs ++ v ∷ [])
Unique-append [] v u h = (refl, tt)
Unique-append (w ∷ vs) v (once, u) h = (
  ground (
    arith,
    any-append (same_version w.«crate» w.version) vs (v ∷ []),
    text_beq_iff w.version v.version,
    text_beq_iff v.version w.version,
  ),
  Unique-append vs v u (ground arith),
)

-- A change of a row that keeps its id.
pub update_row-has_crate :
    (other : ℕ) (f : CrateRow → CrateRow) (rows : List CrateRow) (id : ℕ)
    → ((c : CrateRow) → (f c).id ≡ c.id)
    → has_crate (update_row other f rows) id ≡ has_crate rows id
unfolding update_row
update_row-has_crate other f [] id k = refl
update_row-has_crate other f (c ∷ rows) id k =
    ground (arith, k c, update_row-has_crate other f rows id k)

pub update_row-ids :
    (other n : ℕ) (f : CrateRow → CrateRow) (rows : List CrateRow)
    → ((c : CrateRow) → (f c).id ≡ c.id)
    → All (λ c. c.id < n) rows
    → All (λ c. c.id < n) (update_row other f rows)
unfolding update_row
update_row-ids other n f [] k h = tt
update_row-ids other n f (c ∷ rows) k (h, hs) =
    (ground (arith, k c), update_row-ids other n f rows k hs)

pub found-has_crate :
    (name registry : Text) (rows : List CrateRow) (c : CrateRow)
    → find_crate name registry rows ≡ some c
    → has_crate rows c.id ≡ true
unfolding find_crate
found-has_crate name registry [] c h = absurd (ground arith)
found-has_crate name registry (r ∷ rows) c h =
    elim (Bool-cases (text_beq r.name name && text_beq r.registry registry)) [
      | inl here ↦ ground (arith, eqb_iff c.id c.id)
      | inr there ↦ ground (arith, found-has_crate name registry rows c)
    ]

-- Other keywords and categories, and a counter that has not gone back.
module _ (t : Tables) (keywords categories : List NameRow)
    (crate_keywords crate_categories : List LinkRow) (n : ℕ) (later : t.next_id ≤ n) where
  pub named-IsSound :
      IsSound t
      → IsSound (record t {
        keywords = keywords;
        categories = categories;
        crate_keywords = crate_keywords;
        crate_categories = crate_categories;
        next_id = n;
      })
  named-IsSound v = record {
    crate_ids = All-weaken _ _ t.crates (λ c h. omega arith) v.crate_ids;
    version_ids = All-weaken _ _ t.versions (λ c h. omega arith) v.version_ids;
    versions_of_crates = v.versions_of_crates;
    versions_once = v.versions_once;
    features_of_versions = v.features_of_versions;
    dependencies_of_versions = v.dependencies_of_versions;
    dependencies_on_crates = v.dependencies_on_crates;
  }

-- Other rows of crates, among which each crate is found that was found.
module _ (t : Tables) (crates : List CrateRow) (n : ℕ) (later : t.next_id ≤ n)
    (ids : All (λ c. c.id < n) crates)
    (kept : (id : ℕ) → has_crate t.crates id ≡ true → has_crate crates id ≡ true) where
  pub crates-IsSound : IsSound t → IsSound (record t { crates = crates; next_id = n })
  crates-IsSound v = record {
    crate_ids = ids;
    version_ids = All-weaken _ _ t.versions (λ c h. omega arith) v.version_ids;
    versions_of_crates = All-weaken _ _ t.versions (λ w h. kept w.«crate» h) v.versions_of_crates;
    versions_once = v.versions_once;
    features_of_versions = v.features_of_versions;
    dependencies_of_versions = v.dependencies_of_versions;
    dependencies_on_crates =
        All-weaken _ _ t.dependencies (λ d h. kept d.dependency h) v.dependencies_on_crates;
  }
