-- ===== src/PgIndex/Triples.antt =====
-- Triples for the actions of crates/freighter-pg-index on a session: from tables with one property, an
-- action that succeeds leaves tables with another.
use mathlib.Core.Path.{subst}
use freighter.Base.{
  Option, none, some, List, [], ◌∷◌, Text, Result, ok, err, Option-cases, inl, inr, map_err, ◌≡◌,
  arith,
}
use freighter.Base.Acts.{Act, ◌>>=◌, pure, continue}
use freighter.PgIndex.Tables.{Tables, Statement}
use freighter.PgIndex.Session.{Database, Session, ask, query, prepare, for_each}

-- A property of what an action that succeeds gives and leaves.
abbrev pub Holds : {E A : Type 0} → (A → Tables → Type 0) → Result E A × Session → Type 0
Holds Q (ok a, s) = Q a s.tables
Holds Q (err e, s) = Unit

abbrev pub Triple :
    {E A : Type 0} → (Tables → Type 0) → Act Session E A → (A → Tables → Type 0) → Type 0
Triple P m Q = (s : Session) → P s.tables → Holds Q (m s)

-- A property of what a statement that violates no constraint gives and leaves.
abbrev pub Gives : {A : Type 0} → (A → Tables → Type 0) → Option (A × Tables) → Type 0
Gives Q none = Unit
Gives Q (some (a, t)) = Q a t

module _ {E A B : Type 0} (M : A → Tables → Type 0) (Q : B → Tables → Type 0) where
  continue-Holds :
      (f : A → Act Session E B) (x : Result E A × Session)
      → Holds M x
      → ((a : A) → Triple (M a) (f a) Q)
      → Holds Q (continue x.0 f x.1)
  continue-Holds f (ok a, s) h k = k a s h
  continue-Holds f (err e, s) h k = tt

  -- One action after another.
  pub triple_bind :
      (P : Tables → Type 0) (m : Act Session E A) (f : A → Act Session E B)
      → Triple P m M
      → ((a : A) → Triple (M a) (f a) Q)
      → Triple P (m >>= f) Q
  unfolding ◌>>=◌
  triple_bind P m f h k s p = continue-Holds f (m s) (h s p) k

pub Holds-weaken :
    {E A : Type 0} (M Q : A → Tables → Type 0) (x : Result E A × Session)
    → ((a : A) (t : Tables) → M a t → Q a t)
    → Holds M x
    → Holds Q x
Holds-weaken M Q (ok a, s) f h = f a s.tables h
Holds-weaken M Q (err e, s) f h = tt

pub Holds-ok :
    {E A : Type 0} (Q : A → Tables → Type 0) (x : Result E A × Session) (a : A)
    → x.0 ≡ ok a
    → Holds Q x
    → Q a x.1.tables
Holds-ok Q (ok b, s) a e h = subst (λ y. Q y s.tables) (ground arith) h
Holds-ok Q (err f, s) a e h = absurd (ground arith)

pub Holds-map_err :
    {E F A : Type 0} (Q : A → Tables → Type 0) (f : E → F) (x : Result E A × Session)
    → Holds Q x
    → Holds Q (map_err f x.0, x.1)
Holds-map_err Q f (ok a, s) h = h
Holds-map_err Q f (err e, s) h = h

module _ (P : Tables → Type 0) (D : Database) where
  pub triple_ask :
      {A : Type 0} (Q : A → Tables → Type 0) (st : Statement A)
      → ((t : Tables) → P t → Gives Q (st t))
      → Triple P (ask D st) Q
  unfolding ask
  triple_ask Q st h s p = elim (Option-cases (D.fault s.asked)) [
    | inr (e, failed) ↦ rw (failed, ask) tt
    | inl fine ↦ elim (Option-cases (st s.tables)) [
      | inl refused ↦ rw (fine, refused, ask) tt
      | inr ((a, t), given) ↦ rw (fine, given, ask) (rw given at (h s.tables p))
    ]
  ]

  -- A request is as good as its statement.
  pub triple_query :
      {A : Type 0} (Q : A → Tables → Type 0) (msg : Text) (st : Statement A)
      → ((t : Tables) → P t → Gives Q (st t))
      → Triple P (query D msg st) Q
  unfolding query
  triple_query Q msg st h s p = Holds-map_err Q _ (ask D st s) (triple_ask Q st h s p)

  pub triple_prepare : (msg : Text) → Triple P (prepare D msg) (λ _. P)
  unfolding prepare
  triple_prepare msg = triple_query (λ _. P) msg (λ t. some (tt, t)) (λ t p. p)

module _ (P : Tables → Type 0) where
  pub triple_pure : (E : Type 0) → Triple {E = E} P (pure tt) (λ _. P)
  unfolding pure
  triple_pure E s p = p

  -- A loop keeps what each of its steps keeps.
  pub triple_for_each :
      {E A : Type 0} (f : A → Act Session E (Unit {0})) (l : List A)
      → ((a : A) → Triple P (f a) (λ _. P))
      → Triple P (for_each f l) (λ _. P)
  unfolding for_each
  triple_for_each {E} f [] h = triple_pure E
  triple_for_each f (a ∷ l) h =
      triple_bind (λ _. P) (λ _. P) P (f a) (λ _. for_each f l) (h a) (λ _. triple_for_each f l h)
