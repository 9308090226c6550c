-- ===== src/Client/Download.antt =====
-- The download URL that the client makes from the default template, and how a client is set up
-- (crates/freighter-client/src/lib.rs).
use freighter.Base.{
  to_ascii_lowercase, ◌≢◌, ℕ, ◌≡◌, refl, ap, ◌∙◌, Bool, true, false, not, Option, none, some, [],
  ◌∷◌, ◌++◌, all, all-append, eqb, Text, text_eq, codes, ok, strip_prefix, has_infix, ends_with,
  trim_end_matches, Option-cases, Bool-cases, Result-cases, inl, inr, arith,
}
use freighter.Types.Index.{Semver}
use freighter.Server.Client.{crate_prefix}
use freighter.Client.Template.{replace_from, replace_all, sanitize_dl, apply_markers}
use freighter.Client.Wire.{Http, Response, request, json}
use freighter.Client.{Client, config_response, config_with_token, from_reqwest}

-- A text without an opening brace.
abbrev pub is_plain : Text → Bool
is_plain = all (λ c. not (eqb c b'{'))

replace_plain :
    (marker to t u : Text)
    → is_plain t ≡ true
    → replace_all (b'{' ∷ marker) to (t ++ u) ≡ t ++ replace_all (b'{' ∷ marker) to u
unfolding replace_from strip_prefix
replace_plain marker to [] u h = refl
replace_plain marker to (c ∷ t) u h = ground (arith, replace_plain marker to t u)

replace_absent : (marker to t : Text) → is_plain t ≡ true → replace_all (b'{' ∷ marker) to t ≡ t
unfolding replace_from strip_prefix
replace_absent marker to [] h = refl
replace_absent marker to (c ∷ t) h = ground (arith, replace_absent marker to t)

has_infix_plain : (marker t : Text) → is_plain t ≡ true → has_infix (b'{' ∷ marker) t ≡ false
unfolding has_infix strip_prefix
has_infix_plain marker [] h = refl
has_infix_plain marker (c ∷ t) h = ground (arith, has_infix_plain marker t)

-- The default template.
abbrev with_template : Text → Text
with_template dl = dl ++ codes "/{crate}/{version}/download"

sanitize_plain :
    (dl : Text)
    → is_plain dl ≡ true
    → ends_with (codes "/") dl ≡ false
    → sanitize_dl dl ≡ with_template dl
unfolding sanitize_dl
sanitize_plain dl plain no_slash = ground (
  arith,
  has_infix_plain (codes "crate}") dl plain,
  has_infix_plain (codes "version}") dl plain,
  has_infix_plain (codes "prefix}") dl plain,
  has_infix_plain (codes "lowerprefix}") dl plain,
  has_infix_plain (codes "sha256-checksum}") dl plain,
)

crate_replaced :
    (dl name : Text)
    → is_plain dl ≡ true
    → replace_all (codes "{crate}") name (with_template dl)
      ≡ dl ++ (codes "/" ++ (name ++ codes "/{version}/download"))
unfolding replace_from strip_prefix
crate_replaced dl name plain =
    replace_plain (codes "crate}") name dl (codes "/{crate}/{version}/download") plain

version_replaced :
    (dl name version : Text)
    → is_plain dl ≡ true
    → is_plain name ≡ true
    → replace_all
        (codes "{version}")
        version
        (dl ++ (codes "/" ++ (name ++ codes "/{version}/download")))
      ≡ dl ++ (codes "/" ++ (name ++ (codes "/" ++ (version ++ codes "/download"))))
unfolding replace_from strip_prefix
version_replaced dl name version plain named =
    replace_plain (codes "version}") version dl _ plain
    ∙ ap (λ rest. dl ++ (codes "/" ++ rest))
        (replace_plain (codes "version}") version name (codes "/{version}/download") named)

crate_prefix-none : (name : Text) → crate_prefix name ≡ none → name ≡ []
unfolding crate_prefix
crate_prefix-none [] h = refl
crate_prefix-none (a ∷ []) h = absurd (ground arith)
crate_prefix-none (a ∷ b ∷ []) h = absurd (ground arith)
crate_prefix-none (a ∷ b ∷ c ∷ []) h = absurd (ground arith)
crate_prefix-none (a ∷ b ∷ c ∷ d ∷ name) h = absurd (ground arith)

abbrev pub download_url : Text → Text → Text → Text
download_url dl name version =
    dl ++ (codes "/" ++ (name ++ (codes "/" ++ (version ++ codes "/download"))))

download_url-plain :
    (dl name version : Text)
    → is_plain dl ≡ true
    → is_plain name ≡ true
    → is_plain version ≡ true
    → is_plain (download_url dl name version) ≡ true
download_url-plain dl name version plain named numbered =
    let p : ℕ → Bool = λ c. not (eqb c b'{') in
    all-append p dl _ plain
      (all-append p name _ named (all-append p version (codes "/download") numbered refl))

-- For a download endpoint without opening braces and without a slash at its end, and a crate and a
-- version without opening braces, the URL of a download is the endpoint, the crate, the version
-- and `download`, with slashes between.
pub apply_markers-sanitize_dl :
    (dl name version shasum : Text)
    → is_plain dl ≡ true
    → ends_with (codes "/") dl ≡ false
    → is_plain name ≡ true
    → is_plain version ≡ true
    → name ≢ []
    → apply_markers (sanitize_dl dl) name version shasum ≡ some (download_url dl name version)
unfolding apply_markers
apply_markers-sanitize_dl dl name version shasum plain no_slash named numbered filled =
    let url = download_url dl name version in
    let url_plain = download_url-plain dl name version plain named numbered in
    let made : replace_all (codes "{version}") version
          (replace_all (codes "{crate}") name (sanitize_dl dl))
        ≡ url =
      ap (λ x. replace_all (codes "{version}") version (replace_all (codes "{crate}") name x))
        (sanitize_plain dl plain no_slash)
      ∙ ap (replace_all (codes "{version}") version) (crate_replaced dl name plain)
      ∙ version_replaced dl name version plain named in
    elim (Option-cases (crate_prefix name)) [
      | inl empty ↦ absurd (filled (crate_prefix-none name empty))
      | inr (prefix, found) ↦
          rw (found, apply_markers)
            (ap some (
              ap
                (λ x. replace_all (codes "{sha256-checksum}") shasum (
                  replace_all (codes "{lowerprefix}") (to_ascii_lowercase prefix)
                    (replace_all (codes "{prefix}") prefix x)))
                made
              ∙ ap
                  (λ x.
                    replace_all (codes "{sha256-checksum}") shasum
                      (replace_all (codes "{lowerprefix}") (to_ascii_lowercase prefix) x))
                  (replace_absent (codes "prefix}") prefix url url_plain)
              ∙ ap (replace_all (codes "{sha256-checksum}") shasum)
                  (replace_absent (codes "lowerprefix}") (to_ascii_lowercase prefix) url url_plain)
              ∙ replace_absent (codes "sha256-checksum}") shasum url url_plain))
    ]

module _ {S : Semver} (H : Http S) where
  -- A client that does not need a token comes of one request for the configuration, which was made
  -- without a token and answered with status 200.
  from_reqwest_open :
      (endpoint : Text) (token : Option Text) (w w' : H.World) (c : Client H)
      → from_reqwest H endpoint token w ≡ (ok c, w')
      → c.auth_required ≡ false
      → (resp : Response) × (H.execute
            (request (codes "GET") (trim_end_matches b'/' endpoint ++ codes "/config.json"))
            w
          ≡ (ok resp, w'))
        × (resp.status ≡ 200)
  unfolding from_reqwest config_response
  from_reqwest_open endpoint token w w' c h open_access =
      let req = request (codes "GET") (trim_end_matches b'/' endpoint ++ codes "/config.json") in
      elim (Result-cases (H.execute req w).0) [
        | inr (e, failed) ↦ absurd (ground arith)
        | inl (resp, got) ↦ elim (Bool-cases (eqb resp.status 401)) [
          | inl asked ↦ elim (Result-cases (config_with_token H req token (H.execute req w).1).0) [
            | inr (f, failed) ↦ absurd (ground arith)
            | inl (again, done) ↦ elim (Result-cases (json H.config_from_slice again)) [
              | inr (e, bad) ↦ absurd (ground arith)
              | inl (config, good) ↦ absurd (ground arith)
            ]
          ]
          | inr at_once ↦ elim (Result-cases (json H.config_from_slice resp)) [
            | inr (e, bad) ↦ absurd (ground arith)
            | inl (config, good) ↦ (resp, ground arith, ground arith)
          ]
        ]
      ]
