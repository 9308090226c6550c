-- ===== src/Client/Commands/Again.antt =====
-- What a second `download` finds after a first one (crates/freighter-client/src/main.rs).
use freighter.Base.{
  ◌≡◌, true, some, List, [], ◌∷◌, Text, Bytes, ok, split_once, Option-cases, Bool-cases,
  Result-cases, All, inl, inr, arith, refl,
}
use freighter.Base.Acts.{◌>>=◌}
use freighter.Types.Index.{Semver}
use freighter.Client.Wire.{Http}
use freighter.Client.{Client, download_crate}
use freighter.Client.Tarball.{CargoToml}
use freighter.Client.Commands.{Directory, crate_path, download_spec, download_all}

-- A file that was written is there, and a file that is there stays.
pub record IsDirectory (D : Directory) : Type 0 where
  pub written_exists :
      (path : Text) (bytes : Bytes) (d : D.State)
      → (D.write path bytes d).0 ≡ ok tt
      → D.exists path (D.write path bytes d).1 ≡ true
  pub exists_stays :
      (path other : Text) (bytes : Bytes) (d : D.State)
      → D.exists path d ≡ true
      → D.exists path (D.write other bytes d).1 ≡ true

-- The file of a specification is there.
abbrev pub IsThere : (D : Directory) → D.State → Text → Type 0
IsThere D d spec =
    (name : Text) × (version : Text) × (split_once b'@' spec ≡ some (name, version))
    × (D.exists (crate_path name version) d ≡ true)

module _ {S : Semver} (X : CargoToml S) (D : Directory) {H : Http S} where
  module _ (directory : IsDirectory D) where
    download_spec-IsThere :
        (spec : Text) (c c' : Client H) (d d' : D.State)
        → download_spec X D spec (c, d) ≡ (ok tt, (c', d'))
        → IsThere D d' spec
    unfolding download_spec
    download_spec-IsThere spec c c' d d' h = elim (Option-cases (split_once b'@' spec)) [
      | inl bare ↦ absurd (ground arith)
      | inr ((name, version), split) ↦
          let path = crate_path name version in
          elim (Bool-cases (D.exists path d)) [
            | inl there ↦ (name, version, split, ground arith)
            | inr missing ↦ elim (Option-cases (X.version_parse version)) [
              | inl bad ↦ absurd (ground arith)
              | inr (v, parsed) ↦ elim (Result-cases (download_crate name v c).0) [
                | inr (e, failed) ↦ absurd (ground arith)
                | inl (tarball, loaded) ↦ elim (Result-cases (D.write path tarball d).0) [
                  | inr (e, failed) ↦ absurd (ground arith)
                  | inl (_, written) ↦ (
                    name,
                    version,
                    split,
                    ground (arith, directory.written_exists path tarball d written),
                  )
                ]
              ]
            ]
          ]
    ]

    download_spec-exists :
        (spec path : Text) (c : Client H) (d : D.State)
        → D.exists path d ≡ true
        → D.exists path (download_spec X D spec (c, d)).1.1 ≡ true
    unfolding download_spec
    download_spec-exists spec path c d there = elim (Option-cases (split_once b'@' spec)) [
      | inl bare ↦ ground arith
      | inr ((name, version), split) ↦ elim (Bool-cases (D.exists (crate_path name version) d)) [
        | inl here ↦ ground arith
        | inr missing ↦ elim (Option-cases (X.version_parse version)) [
          | inl bad ↦ ground arith
          | inr (v, parsed) ↦ elim (Result-cases (download_crate name v c).0) [
            | inr (e, failed) ↦ ground arith
            | inl (tarball, loaded) ↦
                ground
                  (arith, directory.exists_stays path (crate_path name version) tarball d there)
          ]
        ]
      ]
    ]

    download_spec-stays :
        (spec other : Text) (c : Client H) (d : D.State)
        → IsThere D d other
        → IsThere D (download_spec X D spec (c, d)).1.1 other
    unfolding download_spec
    download_spec-stays spec other c d (name, version, split, there) =
        (name, version, split, download_spec-exists spec (crate_path name version) c d there)

    download_all-stays :
        (specs : List Text) (other : Text) (c : Client H) (d : D.State)
        → IsThere D d other
        → IsThere D (download_all X D specs (c, d)).1.1 other
    unfolding download_all ◌>>=◌
    download_all-stays [] other c d there = there
    download_all-stays (spec ∷ specs) other c d there =
        let first = download_spec X D spec (c, d) in
        let kept = download_spec-stays spec other c d there in
        elim (Result-cases first.0) [
          | inl (_, done) ↦
              rw (done, download_all) (download_all-stays specs other first.1.0 first.1.1 kept)
          | inr (e, failed) ↦ rw (failed, download_all) kept
        ]

    download_all-IsThere :
        (specs : List Text) (c c' : Client H) (d d' : D.State)
        → download_all X D specs (c, d) ≡ (ok tt, (c', d'))
        → All (IsThere D d') specs
    unfolding download_all ◌>>=◌
    download_all-IsThere [] c c' d d' h = tt
    download_all-IsThere (spec ∷ specs) c c' d d' h =
        let (r, (c1, d1)) = download_spec X D spec (c, d) in
        elim (Result-cases r) [
          | inr (e, failed) ↦ absurd (ground arith)
          | inl (_, done) ↦
              let ran : download_all X D specs (c1, d1) ≡ (ok tt, (c', d')) = ground arith in
              let here = download_spec-IsThere spec c c1 d d1 (ground arith) in
              (
                rw ran at (download_all-stays specs spec c1 d1 here),
                download_all-IsThere specs c1 c' d1 d' ran,
              )
        ]

  download_nothing :
      (specs : List Text) (c : Client H) (d : D.State)
      → All (IsThere D d) specs
      → download_all X D specs (c, d) ≡ (ok tt, (c, d))
  unfolding download_all download_spec ◌>>=◌
  download_nothing [] c d h = refl
  download_nothing (spec ∷ specs) c d ((name, version, split, there), h) =
      ground (arith, split, there, download_nothing specs c d h)

  -- If a file that was written is there, and files stay, then after a `download` command that
  -- ended without a panic, the same command, by any client, asks for nothing, writes nothing and
  -- succeeds.
  pub download_again :
      (specs : List Text) (c c' later : Client H) (d d' : D.State)
      → IsDirectory D
      → download_all X D specs (c, d) ≡ (ok tt, (c', d'))
      → download_all X D specs (later, d') ≡ (ok tt, (later, d'))
  download_again specs c c' later d d' directory h =
      download_nothing specs later d' (download_all-IsThere directory specs c c' d d' h)
