-- ===== src/Auth/Fs/Operations.antt =====
-- Every operation of `FsAuthProvider` keeps the state sound: no crate is left without an owner.
use freighter.Types.Error.{crate_not_found, forbidden, AuthError}
use freighter.Base.{
  if◌then◌else◌, Option, ok_or, false, ltb, ◌≤◌, ◌≡◌, List, [], ◌∷◌, inl, inr, Text, text_eq, ok,
  length, arith, ==_iff, Option-cases, Bool-cases, Result-cases, Bool, true,
}
use freighter.Base.Acts.{Act, ◌>>◌, pure, raise}
use freighter.Base.Dict
use freighter.Auth.OwnerSet
use freighter.Auth.OwnerSet.{
  IsOrdered, extend-IsOrdered, length-extend, remove-IsOrdered, length-remove,
}
use freighter.Auth.Owners
use freighter.Auth.Owners.{
  HashedToken, Owners, no_owners, login_for_token, ensure_authorized_for_crate,
}
use freighter.Auth.Owners.Laws.{IsValid, register-IsValid}
use freighter.Auth.Platform.{Platform, with_crate_owners, remove_each, claim_crate, token_to_str}
use freighter.Auth.Fs.{
  FsAuth, set_owners, sync_owners, hash_token, register, raise, publish, add_owners, list_owners,
  ensure_valid_token, auth_yank, some, remove_owners, token_from_str,
}
use freighter.Auth.Fs.Sound.{IsPlatform}
use freighter.Auth.Fs.Keeps.{
  Keeps, Any, Keeps-gets, Keeps-pure, Keeps-lift, Keeps-weaken, Keeps-bind, Keeps-owners_mut,
  Keeps-set_owners, Keeps-random_token, Keeps-sync_owners,
}

-- Writing a set of owners that is ordered and not empty keeps the owners valid.
with_crate_owners-IsValid :
    (c : Text) (owners : List Text) (o : Owners)
    → (1 ≤ length owners) × IsOrdered owners
    → IsValid o
    → IsValid (with_crate_owners c owners o)
with_crate_owners-IsValid c owners o h valid = record {
  tokens = valid.tokens;
  owned = λ c' s e.
      ground (arith, ==_iff c c', Dict.lookup-insert c c' owners o.crate_owners, valid.owned c' s);
}

-- The loop of `remove_owners` stops before the last owner.
remove_each_keeps :
    (users owners : List Text)
    → (1 ≤ length owners) × IsOrdered owners
    → (1 ≤ length (remove_each users owners).0) × IsOrdered (remove_each users owners).0
unfolding remove_each
remove_each_keeps [] owners h = h
remove_each_keeps (login ∷ users) owners h = elim (Bool-cases (ltb 1 (length owners))) [
  | inl more ↦ rw more (
      remove_each_keeps users (OwnerSet.remove login owners)
        (ground (arith, length-remove login owners), remove-IsOrdered login owners h.1))
  | inr last ↦ rw last h
]

found_some : {A : Type 0} {o : Option A} {a : A} (e : AuthError) → ok_or o e ≡ ok a → o ≡ some a
found_some {o = o} e h = ground arith

claim_crate-IsValid :
    (t : HashedToken) (c : Text) (o o' : Owners)
    → claim_crate t c o ≡ ok o'
    → IsValid o
    → IsValid o'
unfolding claim_crate
claim_crate-IsValid t c o o' e valid = elim (Option-cases (Dict.lookup c o.crate_owners)) [
  | inl fresh ↦ elim (Result-cases (login_for_token t o)) [
    | inl (login, known) ↦
        let p : with_crate_owners c (login ∷ []) o ≡ o' = ground arith in
        rw p at (with_crate_owners-IsValid c (login ∷ []) o (omega arith, (tt, tt)) valid)
    | inr (f, unknown) ↦ absurd (ground arith)
  ]
  | inr (s, there) ↦ let p : o ≡ o' = ground arith in rw p at valid
]

module _ {P : Platform} (laws : IsPlatform P) where
  pub register-IsSound : (username : Text) → Keeps {P = P} Any (register username)
  unfolding register
  register-IsSound username = Keeps-bind Keeps-owners_mut λ o valid.
      Keeps-bind (Keeps-random_token laws) λ bare _.
        Keeps-bind (Keeps-gets (λ s. ok (hash_token s bare))) λ hashed _.
          let after = register-IsValid username hashed o valid in
          Keeps-bind (Keeps-set_owners (Owners.register username hashed o).1 after) λ _ _.
            Keeps-bind (Keeps-lift (Owners.register username hashed o).0) λ _ _.
              Keeps-bind (Keeps-sync_owners laws (Owners.register username hashed o).1 after)
                λ _ _. Keeps-pure (token_to_str P bare)

  -- Both edits of a crate's owners: `add_owners` and `remove_owners` differ in what they write.
  edit-IsSound :
      (c : Text) (owners : List Text) (o : Owners) (rest : Act (FsAuth P) AuthError (Unit {0}))
      → (1 ≤ length owners) × IsOrdered owners
      → IsValid o
      → Keeps Any rest
      → Keeps Any (
          set_owners (with_crate_owners c owners o)
          >> (sync_owners (with_crate_owners c owners o) >> rest))
  edit-IsSound c owners o rest h valid k =
      let after = with_crate_owners-IsValid c owners o h valid in
      Keeps-bind (Keeps-set_owners (with_crate_owners c owners o) after)
        λ _ _. Keeps-bind (Keeps-sync_owners laws (with_crate_owners c owners o) after) λ _ _. k

  pub add_owners-IsSound :
      (token : Text) (users : List Text) (c : Text) → Keeps {P = P} Any (add_owners token users c)
  unfolding add_owners
  add_owners-IsSound token users c = Keeps-bind (Keeps-gets (token_from_str token)) λ hashed _.
      Keeps-bind Keeps-owners_mut λ o valid.
        Keeps-bind (Keeps-lift (ensure_authorized_for_crate hashed c o)) λ _ _.
          Keeps-bind (Keeps-lift (ok_or (Dict.lookup c o.crate_owners) crate_not_found))
            λ owners found.
              let old = valid.owned c owners (found_some crate_not_found found) in
              let owners' = OwnerSet.extend owners users in
              let after =
                with_crate_owners-IsValid c owners' o
                  (length-extend owners users old.0, extend-IsOrdered owners users old.1) valid in
              Keeps-bind (Keeps-set_owners (with_crate_owners c owners' o) after)
                λ _ _. Keeps-sync_owners laws (with_crate_owners c owners' o) after

  refuse_unless-IsSound : (b : Bool) → Keeps {P = P} Any (if b then pure tt else raise forbidden)
  unfolding raise
  refuse_unless-IsSound true = Keeps-pure tt
  refuse_unless-IsSound false = record { at = λ s h. (h, λ a e. tt) }

  pub remove_owners-IsSound :
      (token : Text) (users : List Text) (c : Text)
      → Keeps {P = P} Any (remove_owners token users c)
  unfolding remove_owners
  remove_owners-IsSound token users c = Keeps-bind (Keeps-gets (token_from_str token)) λ hashed _.
      Keeps-bind Keeps-owners_mut λ o valid.
        Keeps-bind (Keeps-lift (ensure_authorized_for_crate hashed c o)) λ _ _.
          Keeps-bind (Keeps-lift (ok_or (Dict.lookup c o.crate_owners) crate_not_found))
            λ owners found.
              edit-IsSound c (remove_each users owners).0 o
                (if (remove_each users owners).1 then pure tt else raise forbidden)
                (remove_each_keeps users owners
                  (valid.owned c owners (found_some crate_not_found found)))
                valid (refuse_unless-IsSound (remove_each users owners).1)

  pub publish-IsSound : (token c : Text) → Keeps {P = P} Any (publish token c)
  unfolding publish
  publish-IsSound token c = Keeps-bind (Keeps-gets (token_from_str token)) λ hashed _.
      Keeps-bind Keeps-owners_mut λ o valid.
        Keeps-bind (Keeps-lift (claim_crate hashed c o)) λ o' claimed.
          Keeps-bind (Keeps-set_owners o' (claim_crate-IsValid hashed c o o' claimed valid))
            λ _ _. Keeps-weaken _ _ (Keeps-lift (ensure_authorized_for_crate hashed c o'))

  pub auth_yank-IsSound : (token c : Text) → Keeps {P = P} Any (auth_yank token c)
  unfolding auth_yank
  auth_yank-IsSound token c = Keeps-bind (Keeps-gets (token_from_str token)) λ hashed _.
      Keeps-bind Keeps-owners_mut
        λ o _. Keeps-weaken _ _ (Keeps-lift (ensure_authorized_for_crate hashed c o))

  pub list_owners-IsSound : (token c : Text) → Keeps {P = P} Any (list_owners token c)
  unfolding list_owners
  list_owners-IsSound token c = Keeps-bind Keeps-owners_mut λ o _.
      Keeps-bind (Keeps-lift (ok_or (Dict.lookup c o.crate_owners) crate_not_found))
        λ owners _. Keeps-pure _

  pub ensure_valid_token-IsSound : (token : Text) → Keeps {P = P} Any (ensure_valid_token token)
  unfolding ensure_valid_token
  ensure_valid_token-IsSound token = Keeps-bind (Keeps-gets (token_from_str token)) λ hashed _.
      Keeps-bind Keeps-owners_mut
        λ o _. Keeps-bind (Keeps-lift (login_for_token hashed o)) λ _ _. Keeps-pure tt
