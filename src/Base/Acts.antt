-- ===== src/Base/Acts.antt =====
-- Operations of `&mut self` (or of `&self` with interior mutability) that may fail. What was
-- written before a failure stays written, so the state comes back beside the error too.
use freighter.Base.{Result, ok, err}

abbrev pub Act : Type 0 → Type 0 → Type 0 → Type 0
Act S E A = S → Result E A × S

module _ {S E A : Type 0} where
  unfoldable pub lift : Result E A → Act S E A
  lift r s = (r, s)

  unfoldable pub pure : A → Act S E A
  pure a s = (ok a, s)

  unfoldable pub raise : E → Act S E A
  raise e s = (err e, s)

  -- What is read from the state.
  unfoldable pub gets : (S → Result E A) → Act S E A
  gets f s = (f s, s)

module _ {S E : Type 0} where
  unfoldable pub modify : (S → S) → Act S E (Unit {0})
  modify f s = (ok tt, f s)

module _ {S E A B : Type 0} where
  abbrev pub continue : Result E A → (A → Act S E B) → Act S E B
  continue (ok a) f s = f a s
  continue (err e) f s = (err e, s)

  infixl 5 ◌>>=◌
  -- `?` in a method. To open it opens the actions above too.
  unfoldable pub ◌>>=◌ : Act S E A → (A → Act S E B) → Act S E B
  unfolding lift pure raise gets modify
  ◌>>=◌ m f s = let (r, s') = m s in continue r f s'

module _ {S E B : Type 0} where
  infixl 5 ◌>>◌
  abbrev pub ◌>>◌ : Act S E (Unit {0}) → Act S E B → Act S E B
  m >> n = m >>= λ _. n
