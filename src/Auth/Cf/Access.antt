-- ===== src/Auth/Cf/Access.antt =====
-- Who is let in by `CfAuthProvider`.
use freighter.Base.{
  ◌≡◌, ◌⊎◌, inl, inr, true, false, none, some, [], Text, text_eq, ok, err, contains, Option-cases,
  Result-cases, arith, ℕ,
}
use freighter.Base.Dict
use freighter.Base.Acts.{◌>>=◌}
use freighter.Auth.Cf.{
  Platform, CfAccess, CfAuth, Claims, is_service_token, user_of_claims, user_of_token,
  user_in_rounds, ready, validated_user_id, publish, ◌∷◌,
}

-- Whose claims these are: a user has a `sub`, a service token has none, and its name as common name.
abbrev pub IsUser : Claims → Text → Type 0
IsUser claims id = (claims.sub ≡ some id) × (is_service_token id ≡ false)

abbrev pub IsService : Claims → Text → Type 0
IsService claims id =
    (claims.common_name ≡ some id)
    × (is_service_token id ≡ true)
    × ((claims.sub ≡ none) ⊎ (claims.sub ≡ some []))

claims_kind :
    (claims : Claims) (id : Text)
    → user_of_claims claims ≡ ok id
    → IsUser claims id ⊎ IsService claims id
unfolding user_of_claims
claims_kind claims id h = elim (Option-cases claims.sub) [
  | inl none_given ↦ inr (ground arith, ground arith, inl none_given)
  | inr ([], empty) ↦ inr (ground arith, ground arith, inr empty)
  | inr (c ∷ t, given) ↦ inl (ground arith, ground arith)
]

module _ {P : Platform} where
  -- What is known of a token that was validated: a key that is held, and the claims that it signs.
  abbrev pub Signed : Text → CfAccess P → Claims → Type 0
  Signed token s claims =
      (key_id : Text) × (key : P.Key) × (P.decode_header token ≡ some (some key_id))
      × (Dict.lookup key_id s.keys ≡ some key)
      × (P.decode token key s.audience s.world ≡ some claims)

  user-Signed :
      (n : ℕ) (token id : Text) (s s' : CfAccess P)
      → user_in_rounds n token s ≡ some (ok id, s')
      → (claims : Claims) × Signed token s' claims × (user_of_claims claims ≡ ok id)
  unfolding user_in_rounds user_of_token
  user-Signed n token id s s' h = elim (Option-cases (P.decode_header token)) [
    | inl bad ↦ absurd (ground arith)
    | inr (none, bad) ↦ absurd (ground arith)
    | inr (some key_id, head) ↦ elim (Option-cases (ready n s)) [
      | inl waiting ↦ absurd (ground arith)
      | inr ((err e, t), failed) ↦ absurd (ground arith)
      | inr ((ok _, t), done) ↦ elim (Option-cases (Dict.lookup key_id t.keys)) [
        | inl unknown ↦ absurd (ground arith)
        | inr (key, found) ↦ elim (Option-cases (P.decode token key t.audience t.world)) [
          | inl bad ↦ absurd (ground arith)
          | inr (claims, signed) ↦
              let same : t ≡ s' = ground arith in
              (claims, (key_id, key, head, rw (← same) found, rw (← same) signed), ground arith)
        ]
      ]
    ]
  ]

  user_found :
      (token id : Text) (c c' : CfAuth P)
      → validated_user_id token c ≡ (ok id, c')
      → (user_in_rounds 2 token c.access ≡ some (ok id, c'.access))
        × (c'.publish_access_ids ≡ c.publish_access_ids)
  unfolding validated_user_id
  user_found token id c c' h = elim (Option-cases (user_in_rounds 2 token c.access)) [
    | inl waiting ↦ absurd (ground arith)
    | inr (r, found) ↦ (ground arith, ground arith)
  ]

  -- A user id that is validated is the one of claims which a key that is held verifies: those of a
  -- user, or those of a service token.
  validated_user_id_ok :
      (token id : Text) (c c' : CfAuth P)
      → validated_user_id token c ≡ (ok id, c')
      → (claims : Claims) × Signed token c'.access claims × (IsUser claims id ⊎ IsService claims id)
  validated_user_id_ok token id c c' h =
      let (claims, signed, user) =
        user-Signed 2 token id c.access c'.access (user_found token id c c' h).0 in
      (claims, signed, claims_kind claims id user)

  -- A publish that the Cloudflare provider allows comes with a token that one of the held keys
  -- verifies, whose claims are those of a service token (its name as common name, no subject), and
  -- whose name is among the ids that may publish.
  pub publish-IsService :
      (token name : Text) (c c' : CfAuth P)
      → publish token name c ≡ (ok tt, c')
      → (id : Text) × (claims : Claims) × Signed token c'.access claims
        × IsService claims id
        × (contains c.publish_access_ids id ≡ true)
  unfolding publish ◌>>=◌
  publish-IsService token name c c' h = elim (Result-cases (validated_user_id token c).0) [
    | inr (e, refused) ↦ absurd (ground arith)
    | inl (id, valid) ↦
        let there : validated_user_id token c ≡ (ok id, c') = ground arith in
        let (claims, signed, kind) = validated_user_id_ok token id c c' there in
        let (_, ids) = user_found token id c c' there in
        elim kind [
          | inl user ↦ absurd (ground arith)
          | inr service ↦ (id, claims, signed, service, ground arith)
        ]
  ]
