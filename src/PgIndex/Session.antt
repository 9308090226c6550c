-- ===== src/PgIndex/Session.antt =====
-- The connection of crates/freighter-pg-index/src/lib.rs to its database. Every request to it may
-- fail: `fault` says which, by their numbers. A failed `commit` may have taken effect all the same.
use freighter.Base.{
  ℕ, suc, Bool, Option, none, some, List, [], ◌∷◌, Text, codes, ok, err, map_err, if◌then◌else◌,
}
use freighter.Base.Acts.{Act, ◌>>=◌, ◌>>◌, pure}
use freighter.Types.Error.{AnyError, IndexError, context}
use freighter.PgIndex.Tables.{Tables, Statement}

pub record Database : Type 0 where
  pub fault : ℕ → Option AnyError
  pub took_effect : ℕ → Bool

-- What a request sees: the tables (in a transaction, those of the transaction), and the number of
-- requests that were made.
pub record Session : Type 0 where
  pub tables : Tables
  pub asked : ℕ

abbrev pub count : Session → Session
count s = record s { asked = suc s.asked }

abbrev violated : AnyError
violated = codes "constraint violation" ∷ []

module _ (D : Database) where
  unfoldable pub ask : {A : Type 0} → Statement A → Act Session AnyError A
  ask statement s = elim (D.fault s.asked) [
    | some e ↦ (err e, count s)
    | none ↦ elim (statement s.tables) [
      | none ↦ (err violated, count s)
      | some (a, tables) ↦ (ok a, record s { tables = tables; asked = suc s.asked })
    ]
  ]

  -- A request with its `context`.
  unfoldable pub query : {A : Type 0} → Text → Statement A → Act Session IndexError A
  unfolding ask
  query msg statement s =
      let (r, s') = ask statement s in
      (map_err (λ e. IndexError.service_error (context msg e)) r, s')

  -- A request that touches no table: for a connection, a transaction or a prepared statement.
  unfoldable pub prepare : Text → Act Session IndexError (Unit {0})
  unfolding query
  prepare msg = query msg (λ t. some (tt, t))

  -- `commit` of the transaction that began with the tables of `before`.
  unfoldable pub commit : Session → Act Session IndexError (Unit {0})
  commit before s = elim (D.fault s.asked) [
    | none ↦ (ok tt, count s)
    | some e ↦ (
      err (IndexError.service_error (context (codes "Failed to commit transaction") e)),
      record s {
        tables = if D.took_effect s.asked then s.tables else before.tables;
        asked = suc s.asked;
      },
    )
  ]

-- A loop over a list that stops at the first failure.
unfoldable pub for_each : {S E A : Type 0} → (A → Act S E (Unit {0})) → List A → Act S E (Unit {0})
unfolding ◌>>=◌
for_each f [] = pure tt
for_each f (a ∷ l) = f a >> for_each f l
