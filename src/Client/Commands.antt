-- ===== src/Client/Commands.antt =====
-- The commands of crates/freighter-client/src/main.rs, over the files of the working directory as a
-- parameter. What is printed is left out, but for the token.
pub mod Again
use freighter.Base.{
  if◌then◌else◌, ◌≡◌, Bool, true, false, Option, none, some, List, [], ◌∷◌, ◌++◌, Text, codes,
  Bytes, Result, ok, err, unwrap_or, map_err, split_once, Option-cases, Bool-cases, Result-cases,
  All, inl, inr, arith, refl, ℕ, suc, zero,
}
use freighter.Base.Acts.{Act, ◌>>=◌, ◌>>◌, pure}
use freighter.Types.Error.{AnyError}
use freighter.Types.Index.{Semver}
use freighter.Client.Wire.{Http, Failure}
use freighter.Client.{Client, register, download_crate, from_reqwest}
use freighter.Client.Tarball.{CargoToml, publish_from_tarball}
use freighter.Client.Args.{Args, Command}

-- The working directory: `Path::exists`, `std::fs::read` and `std::fs::write`.
pub record Directory : Type 1 where
  pub State : Type 0
  pub exists : Text → State → Bool
  pub read : Text → State → Result AnyError Bytes
  pub write : Text → Bytes → State → Result AnyError (Unit {0}) × State

abbrev pub crate_path : Text → Text → Text
crate_path name version = name ++ (codes "-" ++ (version ++ codes ".crate"))

-- `unwrap`
abbrev unwrap : {S E A : Type 0} → Act S E A → Act S Failure A
unwrap m s = let (r, s') = m s in (map_err (λ _. Failure.panic) r, s')

module _ {S : Semver} (X : CargoToml S) (D : Directory) {H : Http S} where
  -- `Register`: what is printed is the token.
  unfoldable pub register_account : Text → Act (Client H) Failure Text
  register_account username = do unwrap (register username); λ c. (ok (unwrap_or c.token []), c)

  -- The body of the loop of `Download`.
  unfoldable pub download_spec : Text → Act (Client H × D.State) Failure (Unit {0})
  download_spec spec (c, d) = elim (split_once b'@' spec) [
    | none ↦ (err Failure.panic, (c, d))
    | some (name, version) ↦
        if D.exists (crate_path name version) d
        then (ok tt, (c, d))
        else elim (X.version_parse version) [
          | none ↦ (err Failure.panic, (c, d))
          | some v ↦
              let (r, c') = download_crate name v c in
              elim r [
                | err _ ↦ (err Failure.panic, (c', d))
                | ok tarball ↦
                    let (written, d') = D.write (crate_path name version) tarball d in
                    (map_err (λ _. Failure.panic) written, (c', d'))
              ]
        ]
  ]

  unfoldable pub download_all : List Text → Act (Client H × D.State) Failure (Unit {0})
  download_all [] = pure tt
  download_all (spec ∷ specs) = download_spec spec >> download_all specs

  -- The read of the file, and `publish_from_tarball`.
  unfoldable pub publish_file : Text → Act (Client H × D.State) Failure (Unit {0})
  publish_file path (c, d) = elim (D.read path d) [
    | err _ ↦ (err Failure.panic, (c, d))
    | ok tarball ↦
        let (r, c') = publish_from_tarball X tarball c in
        (elim r [ err f ↦ err f | ok _ ↦ ok tt ], (c', d))
  ]

  -- The loop of `Publish`, which counts the failures.
  unfoldable pub publish_all : List Text → Act (Client H × D.State) Failure ℕ
  publish_all [] s = (ok 0, s)
  publish_all (path ∷ paths) s =
      let (r, s') = publish_file path s in
      let (failures, s'') = publish_all paths s' in
      elim r [
        | ok _ ↦ (failures, s'')
        | err Failure.panic ↦ (err Failure.panic, s')
        | err (Failure.error _) ↦ (elim failures [ err f ↦ err f | ok n ↦ ok (suc n) ], s'')
      ]

  -- `main` behind the first `unwrap`: what a command prints of the token, or a panic.
  unfoldable pub command : Command → Act (Client H × D.State) Failure Text
  command (Command.register username) (c, d) =
      let (r, c') = register_account username c in (r, (c', d))
  command (Command.download specs) s =
      let (r, s') = download_all specs s in (elim r [ err f ↦ err f | ok _ ↦ ok [] ], s')
  command (Command.publish paths) s =
      let (r, s') = publish_all paths s in
      (elim r [ err f ↦ err f | ok zero ↦ ok [] | ok (suc n) ↦ err Failure.panic ], s')

module _ {S : Semver} (X : CargoToml S) (D : Directory) (H : Http S) where
  unfoldable pub main : Args → H.World → D.State → Result Failure Text × H.World × D.State
  main args w d =
      let (connected, w') = from_reqwest H args.registry_url args.auth_token w in
      elim connected [
        | err _ ↦ (err Failure.panic, w', d)
        | ok c ↦ let (r, (c', d')) = command X D args.command (c, d) in (r, c'.world, d')
      ]
