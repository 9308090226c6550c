-- ===== src/Auth/Cf/Rounds.antt =====
-- The loop of `validated_user_id` ends, and downloads are rare.
use freighter.Base.{
  ℕ, suc, ◌+◌, ◌≤◌, ◌<◌, ◌≡◌, ◌⊎◌, inl, inr, Option, some, Result, ok, err, length, ltb, Bool-cases,
  Result-cases, arith,
}
use freighter.Base.Acts.{◌>>=◌}
use freighter.Types.Error.{AnyError, AuthError, service_error}
use freighter.Auth.Cf.{
  Platform, CfAccess, second, refresh_duration, download, fetch, refresh, ready, now,
}

-- What is relied on of the clock: it does not go back, and from one reading to the next, with no
-- request in between, at most an hour passes.
pub record IsClock (P : Platform) : Type 0 where
  pub forward : (w : P.World) → (P.now w).0 ≤ (P.now (P.now w).1).0
  pub prompt : (w : P.World) → (P.now (P.now w).1).0 ≤ (P.now w).0 + refresh_duration

module _ {P : Platform} where
  -- Where a `fetch` that succeeds ends: with keys, which are due an hour after a last reading.
  fetch_ok :
      (s s' : CfAccess P)
      → fetch s ≡ (ok tt, s')
      → (w : P.World) × (s'.next_fetch ≡ (P.now w).0 + refresh_duration)
        × (s'.world ≡ (P.now w).1)
        × (1 ≤ length s'.keys)
  unfolding fetch download now ◌>>=◌
  fetch_ok s s' h = elim (Result-cases (P.get_jwk_set s.jwks_url s.world).0) [
    | inr (e, failed) ↦ absurd (ground arith)
    | inl (set, got) ↦
        ((P.get_jwk_set s.jwks_url s.world).1, ground arith, ground arith, ground arith)
  ]

  -- A `fetch` that fails leaves the time of the next one.
  fetch_err :
      (s : CfAccess P) (e : AnyError) → (fetch s).0 ≡ err e → (fetch s).1.next_fetch ≡ s.next_fetch
  unfolding fetch download now ◌>>=◌
  fetch_err s e h = elim (Result-cases (P.get_jwk_set s.jwks_url s.world).0) [
    | inr (f, failed) ↦ ground arith
    | inl (set, got) ↦ ground arith
  ]

  module _ (clock : IsClock P) where
    -- Keys that were downloaded last are not due.
    fetched_soon :
        (s : CfAccess P) (w : P.World)
        → s.next_fetch ≡ (P.now w).0 + refresh_duration
        → s.world ≡ (P.now w).1
        → (P.now s.world).0 ≤ s.next_fetch
    fetched_soon s w due read = rw (read, due) (clock.prompt w)

    ready_fetched :
        (n : ℕ) (s : CfAccess P) (w : P.World)
        → s.next_fetch ≡ (P.now w).0 + refresh_duration
        → s.world ≡ (P.now w).1
        → ready (suc n) s ≡ some (ok tt, record s { world = (P.now s.world).1 })
    unfolding ready
    ready_fetched n s w due read = ground (arith, fetched_soon s w due read)

    -- Where keys that are due are downloaded, `refresh` does it.
    refresh_due :
        (s : CfAccess P)
        → s.next_fetch < (P.now s.world).0
        → refresh (record s { world = (P.now s.world).1 })
          ≡ fetch (record s {
            next_fetch = (P.now (P.now s.world).1).0 + second;
            world = (P.now (P.now s.world).1).1;
          })
    unfolding refresh
    refresh_due s due = ground (arith, clock.forward s.world)

    -- The wait for keys: they are not due, or are downloaded and then not due, or the error of the
    -- refresh is passed on.
    abbrev pub Waits : CfAccess P → Option (Result AuthError (Unit {0}) × CfAccess P) → Type 0
    Waits s result =
        let (t, w) = P.now s.world in
        let (refreshed, s') = refresh (record s { world = w }) in
        ((t ≤ s.next_fetch) × (result ≡ some (ok tt, record s { world = w })))
        ⊎ ((s.next_fetch < t)
            × (refreshed ≡ ok tt)
            × (1 ≤ length s'.keys)
            × ((P.now s'.world).0 ≤ s'.next_fetch)
            × (result ≡ some (ok tt, record s' { world = (P.now s'.world).1 })))
        ⊎ ((s.next_fetch < t)
            × (e : AnyError) × (refreshed ≡ err e)
            × (result ≡ some (err (service_error e), s')))

    -- On a clock that does not go back and on which at most an hour passes from one reading to the
    -- next, two rounds and any greater number are enough for the loop that waits for keys, and
    -- give the same: keys that are not due are taken as they are; keys that are due are refreshed,
    -- and either there are keys then, which are not due, or the error of the refresh is the
    -- result.
    pub ready_total : (n : ℕ) (s : CfAccess P) → Waits s (ready (suc (suc n)) s)
    unfolding ready
    ready_total n s = elim (Bool-cases (ltb s.next_fetch (P.now s.world).0)) [
      | inr not_due ↦ inl (ground arith, ground arith)
      | inl due ↦
          let t = P.now (P.now s.world).1 in
          let s2 : CfAccess P = record s { next_fetch = t.0 + second; world = t.1 } in
          let same = refresh_due s (ground arith) in
          elim (Result-cases (fetch s2).0) [
            | inr (e, failed) ↦
                inr (inr (ground arith, e, ground (arith, same), ground (arith, same)))
            | inl (_, done) ↦
                let (w, later, read, filled) = fetch_ok s2 (fetch s2).1 (ground arith) in
                let again = ready_fetched n (fetch s2).1 w later read in
                let soon = fetched_soon (fetch s2).1 w later read in
                inr (
                  inl (
                    ground arith,
                    ground (arith, same),
                    ground (arith, same, filled),
                    ground (arith, same, soon),
                    ground (arith, same, again),
                  ))
          ]
    ]

  -- Before its time a `refresh` only reads the clock. From its time on, it fails, and the next
  -- download is due a second later, or it leaves at least one key, and the next download is due an
  -- hour after a later reading of the clock.
  refresh_outcome :
      (s : CfAccess P)
      → ((P.now s.world).0 < s.next_fetch)
          × ((refresh s).1 ≡ record s { world = (P.now s.world).1 })
        ⊎ ((s.next_fetch ≤ (P.now s.world).0)
            × (((e : AnyError) × ((refresh s).0 ≡ err e)
                  × ((refresh s).1.next_fetch ≡ (P.now s.world).0 + second))
                ⊎ (((refresh s).0 ≡ ok tt)
                    × (1 ≤ length (refresh s).1.keys)
                    × ((w : P.World) × ((refresh s).1.next_fetch
                          ≡ (P.now w).0 + refresh_duration)))))
  unfolding refresh
  refresh_outcome s = elim (Bool-cases (ltb (P.now s.world).0 s.next_fetch)) [
    | inl early ↦ inl (ground arith, ground arith)
    | inr due ↦
        let s2 : CfAccess P = record s {
          next_fetch = (P.now s.world).0 + second;
          world = (P.now s.world).1;
        } in
        elim (Result-cases (fetch s2).0) [
          | inr (e, failed) ↦
              inr (ground arith, inl (e, ground arith, ground (arith, fetch_err s2 e failed)))
          | inl (_, done) ↦
              let (w, later, _, filled) = fetch_ok s2 (fetch s2).1 (ground arith) in
              inr (ground arith, inr (ground arith, ground arith, (w, ground arith)))
        ]
  ]
