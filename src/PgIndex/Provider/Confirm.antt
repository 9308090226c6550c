-- ===== src/PgIndex/Provider/Confirm.antt =====
-- `confirm_existence` of `PgIndexProvider` (crates/freighter-pg-index/src/lib.rs) behind a `publish`.
use freighter.Base.{
  eqb_iff, codes, ℕ, suc, ◌+◌, ◌≤◌, ◌<◌, none, ◌≡◌, refl, ◌∙◌, ap, Bool, true, false, ◌⊎◌, some,
  List, [], ◌∷◌, ◌++◌, Text, text_eq, Bytes, ok, err, retain, any, Option-cases, inl, inr, arith,
  text_beq_iff,
}
use freighter.Base.Acts.{Act, ◌>>=◌}
use freighter.Types.Error.{context, AnyError, IndexError}
use freighter.Types.Index.{Semver, Publish, CompletedPublication, CrateVersionExists}
use freighter.PgIndex.Tables.{VersionRow, Tables}
use freighter.PgIndex.Tables.Reading.{version_rows, confirm_rows}
use freighter.PgIndex.Session.{Database, Session, ask, query, prepare}
use freighter.PgIndex.Publish
use freighter.PgIndex.Publish.{Codec, publish}
use freighter.PgIndex.Publish.Released.{Released, released_row, is_version}
use freighter.PgIndex.Publish.Atomic.{publish-Released}
use freighter.PgIndex.Provider.{connection, confirm_existence, exists_of_row}

retain-append {ℓ} :
    {A : Type ℓ} (p : A → Bool) (xs ys : List A) → retain p (xs ++ ys) ≡ retain p xs ++ retain p ys
retain-append p [] ys = refl
retain-append p (x ∷ xs) ys = ground (arith, retain-append p xs ys)

retain_none {ℓ} : {A : Type ℓ} (p : A → Bool) (xs : List A) → any p xs ≡ false → retain p xs ≡ []
retain_none p [] h = refl
retain_none p (x ∷ xs) h = ground (arith, retain_none p xs)

module _ {S : Semver} (D : Database) (C : Codec S) where
  -- `confirm_existence` in a session: none of its three requests fails and it gives this answer, or
  -- one of them fails, and so does it.
  abbrev pub Confirms : Text → S.Version → CrateVersionExists → Session → Type 0
  Confirms name version found s =
      ((D.fault s.asked ≡ none)
        × (D.fault (suc s.asked) ≡ none)
        × (D.fault (suc (suc s.asked)) ≡ none)
        × ((confirm_existence D C name version s).0 ≡ ok found))
      ⊎ ((k : ℕ) × (e : AnyError) × (f : AnyError) × (s.asked ≤ k)
          × (k < s.asked + 3)
          × (D.fault k ≡ some e)
          × ((confirm_existence D C name version s).0 ≡ err (IndexError.service_error f)))

  -- The rows that `confirm_existence` asks for decide what it says, unless a request fails.
  confirm_of_rows :
      (name : Text) (version : S.Version) (s : Session) (row : VersionRow) (cksum : Bytes)
      → confirm_rows name (S.version_to_string version) s.tables ≡ some (row ∷ [], s.tables)
      → C.hex_decode row.cksum ≡ ok cksum
      → Confirms name version (record { yanked = row.yanked; tarball_checksum = cksum }) s
  unfolding confirm_existence connection prepare query ask exists_of_row ◌>>=◌
  confirm_of_rows name version s row cksum rows digits = elim (Option-cases (D.fault s.asked)) [
    | inr (e, failed) ↦
        inr (s.asked, e, codes "panicked" ∷ [], omega arith, omega arith, failed, ground arith)
    | inl first ↦ elim (Option-cases (D.fault (suc s.asked))) [
      | inr (e, failed) ↦
          let f = context (codes "Failed to prepare confirm existence statement") e in
          inr (suc s.asked, e, f, omega arith, omega arith, failed, ground arith)
      | inl second ↦ elim (Option-cases (D.fault (suc (suc s.asked)))) [
        | inr (e, failed) ↦
            let f = context (codes "Failed to execute existential confirmation query") e in
            inr (suc (suc s.asked), e, f, omega arith, omega arith, failed, ground arith)
        | inl third ↦ inl (first, second, third, ground arith)
      ]
    ]
  ]

  confirm_rows-Released :
      (p : Publish S) (cksum : Bytes) (old : List VersionRow) (t : Tables)
      → Released C p cksum old t
      → (row : VersionRow) × (confirm_rows p.name (S.version_to_string p.vers) t
          ≡ some (row ∷ [], t))
        × (row.yanked ≡ false)
        × (row.cksum ≡ C.hex_encode cksum)
  unfolding confirm_rows version_rows
  confirm_rows-Released p cksum old t (id, (c, found, same), fresh, (n, added)) =
      let version = S.version_to_string p.vers in
      let row = released_row C p cksum n id in
      let here : is_version id version row ≡ true =
        ground (arith, eqb_iff id id, text_beq_iff version version) in
      let rows : retain (is_version id version) t.versions ≡ row ∷ [] = ground (
        arith,
        retain-append (is_version id version) old (row ∷ []),
        retain_none (is_version id version) old,
      ) in
      (row, ground arith, refl, refl)

  -- If hexadecimal digits are read back as the checksum, then after a publish to the Postgres
  -- index that succeeds `confirm_existence` says of the version that it is not yanked and has that
  -- checksum, if none of its three requests to the database fails; or one of them fails, and it
  -- with a service error.
  pub confirm-publish :
      {W : Type 0} (p : Publish S) (cksum : Bytes) (end_step : Act W IndexError (Unit {0}))
      (s s' : Session) (w w' : W) (r : CompletedPublication)
      → C.hex_decode (C.hex_encode cksum) ≡ ok cksum
      → Publish.publish D C p cksum end_step (s, w) ≡ (ok r, (s', w'))
      → Confirms p.name p.vers (record { yanked = false; tarball_checksum = cksum }) s'
  confirm-publish p cksum end_step s s' w w' r digits h =
      let (stepped, released) = publish-Released D C p cksum end_step s s' w w' r h in
      let (row, rows, unyanked, digest) =
        confirm_rows-Released p cksum s.tables.versions s'.tables released in
      rw unyanked at
        (confirm_of_rows p.name p.vers s' row cksum rows (ap C.hex_decode digest ∙ digits))
