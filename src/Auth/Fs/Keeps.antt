-- ===== src/Auth/Fs/Keeps.antt =====
-- Sound states under the actions of which the operations of `FsAuthProvider` consist.
use freighter.Base.{◌≡◌, refl, text_eq, Result, ok, err, arith}
use freighter.Base.Acts.{Act, ◌>>=◌, lift, pure, gets, modify, continue}
use freighter.Types.Error.{AuthError}
use freighter.Auth.Owners.{Owners}
use freighter.Auth.Owners.Laws.{IsValid}
use freighter.Auth.Platform.{Platform}
use freighter.Auth.Fs.{FsAuth, load_owners_file, owners_mut, set_owners, sync_owners, random_token}
use freighter.Auth.Fs.Sound.{IsPlatform, IsSound, sync-IsSound}

-- From a sound state `m` reaches a sound state, and what it returns satisfies `Q`.
pub record Keeps {P : Platform} {A : Type 0} (Q : A → Type 0) (m : Act (FsAuth P) AuthError A)
    : Type 0 where
  pub at : (s : FsAuth P) → IsSound s → IsSound (m s).1 × ((a : A) → (m s).0 ≡ ok a → Q a)

abbrev pub Any : {A : Type 0} → A → Type 0
Any a = Unit

module _ {P : Platform} {A : Type 0} where
  pub Keeps-gets : (f : FsAuth P → Result AuthError A) → Keeps Any (gets f)
  unfolding gets
  Keeps-gets f = record { at = λ s h. (h, λ a e. tt) }

  pub Keeps-pure : (a : A) → Keeps {P = P} Any (pure a)
  unfolding pure
  Keeps-pure a = record { at = λ s h. (h, λ b e. tt) }

  pub Keeps-lift : (r : Result AuthError A) → Keeps {P = P} (λ a. r ≡ ok a) (lift r)
  unfolding lift
  Keeps-lift r = record { at = λ s h. (h, λ a e. e) }

  pub Keeps-weaken : (Q : A → Type 0) (m : Act (FsAuth P) AuthError A) → Keeps Q m → Keeps Any m
  Keeps-weaken Q m k = record { at = λ s h. ((k.at s h).0, λ a e. tt) }

module _ {P : Platform} {A B : Type 0} where
  Keeps-continue :
      (Q : A → Type 0) (R : B → Type 0) (r : Result AuthError A)
      (f : A → Act (FsAuth P) AuthError B)
      → ((a : A) → r ≡ ok a → Q a)
      → ((a : A) → Q a → Keeps R (f a))
      → Keeps R (continue r f)
  Keeps-continue Q R (ok a) f q k = k a (q a refl)
  Keeps-continue Q R (err e) f q k = record { at = λ s h. (h, λ b p. cc) }

  pub Keeps-bind :
      {Q : A → Type 0} {R : B → Type 0} {m : Act (FsAuth P) AuthError A}
      {f : A → Act (FsAuth P) AuthError B}
      → Keeps Q m
      → ((a : A) → Q a → Keeps R (f a))
      → Keeps R (m >>= f)
  unfolding ◌>>=◌
  Keeps-bind {Q} {R} {m} {f} km kf = record {
    at = λ s h.
        let (r, s') = m s in
        (Keeps-continue Q R (m s).0 f (km.at s h).1 kf).at (m s).1 (km.at s h).0;
  }

module _ {P : Platform} where
  pub Keeps-owners_mut : Keeps {P = P} IsValid owners_mut
  unfolding owners_mut load_owners_file
  Keeps-owners_mut = record {
    at = λ s h. (
      record {
        memory = λ o e. ground (arith, h.memory o, h.file o);
        file = λ o e. ground (arith, h.file o);
      },
      λ o e. ground (arith, h.memory o, h.file o),
    );
  }

  pub Keeps-set_owners : (o : Owners) → IsValid o → Keeps {P = P} Any (set_owners o)
  unfolding load_owners_file modify
  Keeps-set_owners o valid = record {
    at = λ s h. (record { memory = λ o' e. ground arith; file = h.file }, λ a e. tt);
  }

  pub Keeps-random_token : IsPlatform P → Keeps {P = P} Any random_token
  unfolding random_token load_owners_file
  Keeps-random_token laws = record {
    at = λ s h. (
      record {
        memory = λ o e. h.memory o e;
        file = λ o e. ground (
          arith,
          h.file o,
          laws.random_exists s.owners_file_path 21 s.world,
          laws.random_open s.owners_file_path 21 s.world,
        );
      },
      λ a e. tt,
    );
  }

  pub Keeps-sync_owners :
      IsPlatform P → (o : Owners) → IsValid o → Keeps {P = P} Any (sync_owners o)
  Keeps-sync_owners laws o valid = record { at = λ s h. (sync-IsSound laws o s valid h, λ a e. tt) }
