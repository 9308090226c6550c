-- ===== src/PgIndex/Provider/Yanking.antt =====
-- `yank_crate` and `unyank_crate` of `PgIndexProvider` (crates/freighter-pg-index/src/lib.rs).
use freighter.Base.{
  ◌≡◌, ◌≢◌, refl, ap, zero, suc, codes, Bool, ◌&&◌, ℕ, none, some, List, [], ◌∷◌, map, length, Text,
  text_eq, text_beq, text_beq_iff, ok, err, eqb, Option-cases, Bool-cases, inl, inr, arith,
}
use freighter.Base.Acts.{◌>>=◌, raise, pure}
use freighter.Types.Error.{IndexError, conflict}
use freighter.Types.Index.{Semver}
use freighter.PgIndex.Tables.{VersionRow, Tables, find_crate}
use freighter.PgIndex.Tables.Reading.{version_rows, yank_rows, set_yank, confirm_rows}
use freighter.PgIndex.Session.{Database, Session, ask, query, prepare}
use freighter.PgIndex.Publish.{Codec}
use freighter.PgIndex.Triples.{
  Triple, Gives, triple_bind, triple_query, triple_prepare, triple_ask, Holds-map_err, Holds-ok,
}
use freighter.PgIndex.Provider.{confirm_existence, connection, yank_inner, yank_outcome}

abbrev pub mark : Bool → VersionRow → VersionRow
mark b v = record v { yanked = b }

yank_rows-version_rows :
    (id : ℕ) (version : Text) (b : Bool) (rows : List VersionRow)
    → ((yank_rows id version b rows).0 ≡ length (version_rows id version rows))
      × (version_rows id version (yank_rows id version b rows).1
          ≡ map (mark b) (version_rows id version rows))
unfolding yank_rows version_rows
yank_rows-version_rows id version b [] = (refl, refl)
yank_rows-version_rows id version b (v ∷ rows) =
    let (count, marked) = yank_rows-version_rows id version b rows in
    elim (Bool-cases (eqb v.«crate» id && text_beq v.version version)) [
      | inl here ↦ (ground (arith, count), ground (arith, marked))
      | inr other ↦ (ground (arith, count), ground (arith, marked))
    ]

yank_rows-version_rows_ne :
    (id : ℕ) (version other : Text) (b : Bool) (rows : List VersionRow)
    → version ≢ other
    → version_rows id other (yank_rows id version b rows).1 ≡ version_rows id other rows
unfolding yank_rows version_rows
yank_rows-version_rows_ne id version other b [] ne = refl
yank_rows-version_rows_ne id version other b (v ∷ rows) ne =
    let rest = yank_rows-version_rows_ne id version other b rows ne in
    elim (Bool-cases (eqb v.«crate» id && text_beq v.version version)) [
      | inl here ↦
          ground (arith, rest, text_beq_iff v.version version, text_beq_iff v.version other)
      | inr away ↦ ground (arith, rest)
    ]

-- The rows of a version, as `confirm_existence` asks for them.
abbrev pub rows_of : Text → Text → Tables → List VersionRow
rows_of name version t = elim (confirm_rows name version t) [ none ↦ [] | some (rows, _) ↦ rows ]

-- What set-yank.sql does to the rows of the version and of others.
abbrev Marked : Text → Text → Bool → Tables → ℕ → Tables → Type 0
Marked name version b t n t' =
    (n ≡ length (rows_of name version t))
    × (rows_of name version t' ≡ map (mark b) (rows_of name version t))
    × ((other : Text) → version ≢ other → rows_of name other t' ≡ rows_of name other t)

set_yank-Marked :
    (name version : Text) (b : Bool) (t : Tables)
    → Gives (Marked name version b t) (set_yank name version b t)
unfolding set_yank confirm_rows
set_yank-Marked name version b t = elim (Option-cases (find_crate name [] t.crates)) [
  | inl missing ↦ rw (missing, set_yank) (ground arith, ground arith, λ other ne. refl)
  | inr (c, found) ↦
      let (count, marked) = yank_rows-version_rows c.id version b t.versions in
      rw (found, set_yank)
        (
          ground (arith, count),
          ground (arith, marked),
          λ other ne. ground (arith, yank_rows-version_rows_ne c.id version other b t.versions),
        )
]

confirm_rows-rows_of :
    (name version : Text) (t : Tables)
    → confirm_rows name version t ≡ some (rows_of name version t, t)
unfolding confirm_rows
confirm_rows-rows_of name version t = elim (Option-cases (find_crate name [] t.crates)) [
  | inl missing ↦ ground arith
  | inr (c, found) ↦ ground arith
]

set_yank-rows_of :
    (name version : Text) (b : Bool) (t : Tables)
    → (t' : Tables) × (set_yank name version b t ≡ some (length (rows_of name version t), t'))
unfolding set_yank confirm_rows
set_yank-rows_of name version b t = elim (Option-cases (find_crate name [] t.crates)) [
  | inl missing ↦ (t, ground arith)
  | inr (c, found) ↦
      let (count, marked) = yank_rows-version_rows c.id version b t.versions in
      (record t { versions = (yank_rows c.id version b t.versions).1 }, ground (arith, count))
]

yank_outcome-one : (P : ℕ → Tables → Type 0) (n : ℕ) → Triple (P n) (yank_outcome n) (λ _. P 1)
unfolding raise pure
yank_outcome-one P zero s h = tt
yank_outcome-one P (suc zero) s h = h
yank_outcome-one P (suc (suc n)) s h = tt

module _ (S : Semver) (D : Database) (name : Text) (version : S.Version) (b : Bool) where
  triple_yank :
      (t : Tables)
      → Triple
          (λ x. x ≡ t)
          (yank_inner D S name version b)
          (λ _. Marked name (S.version_to_string version) b t 1)
  unfolding yank_inner connection
  triple_yank t =
      let at_start : Tables → Type 0 = λ x. x ≡ t in
      let marked = Marked name (S.version_to_string version) b t in
      triple_bind (λ _. at_start) (λ _. marked 1) at_start _ _
        (λ s h.
          Holds-map_err (λ _. at_start) _ (ask D _ s)
            (triple_ask at_start D (λ _. at_start) _ (λ x h. h) s h))
        λ _.
          triple_bind (λ _. at_start) (λ _. marked 1) at_start _ _ (triple_prepare at_start D _)
            λ _.
              triple_bind marked (λ _. marked 1) at_start _ _
                (triple_query at_start D marked _ _
                  (λ x e. rw e (set_yank-Marked name (S.version_to_string version) b t)))
                (yank_outcome-one marked)

  yank-Marked :
      (s s' : Session)
      → yank_inner D S name version b s ≡ (ok tt, s')
      → Marked name (S.version_to_string version) b s.tables 1 s'.tables
  yank-Marked s s' h =
      let there : (yank_inner D S name version b s).1 ≡ s' = ap (λ x. x.1) h in
      rw there at (
        Holds-ok (λ _. Marked name (S.version_to_string version) b s.tables 1)
          (yank_inner D S name version b s) tt (ap (λ x. x.0) h) (triple_yank s.tables s refl))

  -- A yank or unyank of the Postgres index that succeeds has found one row for the version, which
  -- holds the new mark afterwards and is otherwise as before; the rows of the other versions of
  -- the crate are unchanged.
  pub yank_marks :
      (other : Text) (s s' : Session)
      → S.version_to_string version ≢ other
      → yank_inner D S name version b s ≡ (ok tt, s')
      → (1 ≡ length (rows_of name (S.version_to_string version) s.tables))
        × (rows_of name (S.version_to_string version) s'.tables
            ≡ map (mark b) (rows_of name (S.version_to_string version) s.tables))
        × (rows_of name other s'.tables ≡ rows_of name other s.tables)
  yank_marks other s s' ne h =
      let (count, marked, others) = yank-Marked s s' h in (count, marked, others other ne)

  -- On a database that answers every request, a version without a row is not found by
  -- `confirm_existence`, and to yank or unyank it is a conflict.
  yank_absent :
      (C : Codec S) (s : Session)
      → ((n : ℕ) → D.fault n ≡ none)
      → rows_of name (S.version_to_string version) s.tables ≡ []
      → ((confirm_existence D C name version s).0 ≡ err IndexError.not_found)
        × ((yank_inner D S name version b s).0
            ≡ err (conflict (codes "Tried to set yank status to an identical status")))
  unfolding confirm_existence yank_inner connection prepare query ask ◌>>=◌ raise
  yank_absent C s healthy missing =
      let v = S.version_to_string version in
      let (t', updated) = set_yank-rows_of name v b s.tables in
      let read : confirm_rows name v s.tables ≡ some ([], s.tables) =
        ground (arith, confirm_rows-rows_of name v s.tables) in
      let written : set_yank name v b s.tables ≡ some (0, t') = ground arith in
      let h0 = healthy s.asked in
      let h1 = healthy (suc s.asked) in
      let h2 = healthy (suc (suc s.asked)) in (ground arith, ground arith)
