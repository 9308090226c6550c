-- ===== src/Auth/Owners/Laws.antt =====
-- Registration and authorization on `Owners`.
use freighter.Base.{
  ◌≤◌, ◌≡◌, ◌↔◌, true, some, List, [], ◌∷◌, Text, text_eq, arith, ok, ==_iff, contains, is_some,
  length, Bool-cases, inl, sym, ◌==◌, refl, inr, ==_refl,
}
use freighter.Base.Dict
use freighter.Base.Dict.{Dict}
use freighter.Auth.OwnerSet.{IsOrdered}
use freighter.Auth.Owners.{
  HashedToken, Owners, reverse_tokens, filled_tokens, register, ensure_authorized_for_crate,
  fill_tokens,
}

-- Every login that holds a token is in the reverse map, if that has been filled; and no crate is
-- without an owner.
pub record IsValid (o : Owners) : Type 0 where
  pub tokens :
      (t : HashedToken) (login : Text)
      → Dict.lookup t o.token_owners ≡ some login
      → is_some (Dict.lookup login (filled_tokens o)) ≡ true
  pub owned :
      (c : Text) (s : List Text)
      → Dict.lookup c o.crate_owners ≡ some s
      → (1 ≤ length s) × IsOrdered s

pub reverse_tokens-is_some :
    (t : HashedToken) (login : Text) (m : Dict HashedToken Text)
    → Dict.lookup t m ≡ some login
    → is_some (Dict.lookup login (reverse_tokens m)) ≡ true
unfolding reverse_tokens Dict.lookup
reverse_tokens-is_some t login [] h = ground arith
reverse_tokens-is_some t login ((k, v) ∷ m) h = ground (
  arith,
  ==_iff v login,
  Dict.lookup-insert v login k (reverse_tokens m),
  reverse_tokens-is_some t login m,
)

fill_reverse :
    (m : Dict HashedToken Text) (l : Dict Text HashedToken)
    → l ≡ reverse_tokens m
    → fill_tokens l m ≡ l
fill_reverse m [] h = sym h
fill_reverse m (e ∷ l) h = refl

filled_idem :
    (o : Owners) → filled_tokens (record o { owner_tokens = filled_tokens o }) ≡ filled_tokens o
filled_idem o = go o.owner_tokens
  where
    go :
        (l : Dict Text HashedToken)
        → fill_tokens (fill_tokens l o.token_owners) o.token_owners ≡ fill_tokens l o.token_owners
    go [] = fill_reverse o.token_owners (reverse_tokens o.token_owners) refl
    go (e ∷ l) = refl

fill-insert :
    (k : Text) (t : HashedToken) (l : Dict Text HashedToken) (m : Dict HashedToken Text)
    → fill_tokens (Dict.insert k t l) m ≡ Dict.insert k t l
unfolding Dict.insert
fill-insert k t [] m = refl
fill-insert k t ((j, w) ∷ l) m = elim (Bool-cases (j == k)) [
  | inl here ↦ rw here
  | inr other ↦ rw other
]

-- `register` keeps the owners valid, whether it accepts the login or not.
pub register-IsValid :
    (login : Text) (token : HashedToken) (o : Owners)
    → IsValid o
    → IsValid (register login token o).1
unfolding register
register-IsValid login token o valid =
    elim (Bool-cases (Dict.contains_key login (filled_tokens o))) [
      | inl taken ↦ rw taken (record {
        tokens = λ t l h. rw (filled_idem o) (valid.tokens t l h);
        owned = valid.owned;
      })
      | inr free ↦ rw free (record {
        tokens = λ t l h.
            rw (fill-insert login token (filled_tokens o) (Dict.insert token login o.token_owners))
              (ground (
                arith,
                ==_iff login l,
                Dict.lookup-insert login l token (filled_tokens o),
                Dict.lookup-insert token t login o.token_owners,
                valid.tokens t l,
              ));
        owned = valid.owned;
      })
    ]

-- A token is authorized for a crate exactly if the crate has owners, the token belongs to a login,
-- and that login is among the owners.
authorized_iff :
    (t : HashedToken) (c : Text) (o : Owners)
    → (ensure_authorized_for_crate t c o ≡ ok tt) ↔ (
        (s : List Text) × (login : Text) × (Dict.lookup c o.crate_owners ≡ some s)
        × (Dict.lookup t o.token_owners ≡ some login)
        × (contains s login ≡ true))
unfolding ensure_authorized_for_crate
authorized_iff t c o = (λ h. ground arith, λ (s, login, hs, hl, hc). ground arith)

-- A login that is registered holds its token.
pub login-register :
    (login : Text) (token : HashedToken) (o : Owners)
    → (register login token o).0 ≡ ok tt
    → Dict.lookup token (register login token o).1.token_owners ≡ some login
unfolding register
login-register login token o h =
    ground (arith, ==_refl token, Dict.lookup-insert token token login o.token_owners)
