-- ===== src/PgIndex/Tables/Marking.antt =====
-- The statement of a yank keeps the integrity of the tables.
use freighter.Base.{
  ◌∙◌, ℕ, ◌<◌, ◌≡◌, refl, Bool, true, List, [], ◌∷◌, Text, text_eq, eqb, any, All, Bool-cases,
  Option-cases, inl, inr, arith,
}
use freighter.PgIndex.Tables.{VersionRow, Tables, find_crate}
use freighter.PgIndex.Tables.Reading.{yank_rows, set_yank}
use freighter.PgIndex.Tables.Integrity.{IsSound, has_crate, same_version, Unique, All-weaken}
use freighter.PgIndex.Triples.{Gives}

abbrev Sounds : ℕ → Tables → Type 0
Sounds _ = IsSound

-- A yank changes nothing of a row but its mark.
module _ (crate_id : ℕ) (version : Text) (yanked : Bool) where
  yank_rows-any :
      (test : VersionRow → Bool) (vs : List VersionRow)
      → ((v : VersionRow) (b : Bool) → test (record v { yanked = b }) ≡ test v)
      → any test (yank_rows crate_id version yanked vs).1 ≡ any test vs
  unfolding yank_rows
  yank_rows-any test [] blind = refl
  yank_rows-any test (v ∷ vs) blind = ground (arith, blind v yanked, yank_rows-any test vs blind)

  yank_rows-All :
      (P : VersionRow → Type 0) (vs : List VersionRow)
      → ((v : VersionRow) (b : Bool) → P v → P (record v { yanked = b }))
      → All P vs
      → All P (yank_rows crate_id version yanked vs).1
  unfolding yank_rows
  yank_rows-All P [] blind h = tt
  yank_rows-All P (v ∷ vs) blind (h, hs) = elim (Bool-cases (same_version crate_id version v)) [
    | inl here ↦ rw (here, yank_rows) (blind v yanked h, yank_rows-All P vs blind hs)
    | inr there ↦ rw (there, yank_rows) (h, yank_rows-All P vs blind hs)
  ]

  yank_rows-Unique :
      (vs : List VersionRow) → Unique vs → Unique (yank_rows crate_id version yanked vs).1
  unfolding yank_rows
  yank_rows-Unique [] u = tt
  yank_rows-Unique (v ∷ vs) (once, u) =
      let still = yank_rows-any (same_version v.«crate» v.version) vs (λ w b. refl) ∙ once in
      elim (Bool-cases (same_version crate_id version v)) [
        | inl here ↦ rw (here, yank_rows) (still, yank_rows-Unique vs u)
        | inr there ↦ rw (there, yank_rows) (still, yank_rows-Unique vs u)
      ]

pub set_yank-IsSound :
    (name version : Text) (yanked : Bool) (t : Tables)
    → IsSound t
    → Gives Sounds (set_yank name version yanked t)
unfolding set_yank
set_yank-IsSound name version yanked t v = elim (Option-cases (find_crate name [] t.crates)) [
  | inl missing ↦ rw (missing, set_yank) v
  | inr (c, found) ↦
      let known =
        λ (n : ℕ). yank_rows-any c.id version yanked (λ w. eqb w.id n) t.versions (λ w b. refl) in
      rw (found, set_yank)
        (record {
          crate_ids = v.crate_ids;
          version_ids =
              yank_rows-All c.id version yanked (λ w. w.id < t.next_id) t.versions (λ w b h. h)
                v.version_ids;
          versions_of_crates =
              yank_rows-All c.id version yanked (λ w. has_crate t.crates w.«crate» ≡ true)
                t.versions (λ w b h. h) v.versions_of_crates;
          versions_once = yank_rows-Unique c.id version yanked t.versions v.versions_once;
          features_of_versions =
              All-weaken _ _ t.features (λ f h. known f.crate_version ∙ h) v.features_of_versions;
          dependencies_of_versions =
              All-weaken _ _ t.dependencies (λ d h. known d.dependent ∙ h)
                v.dependencies_of_versions;
          dependencies_on_crates = v.dependencies_on_crates;
        })
]
