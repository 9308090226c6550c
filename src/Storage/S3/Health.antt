-- ===== src/Storage/S3/Health.antt =====
-- What a health check of the S3 storage shows.
use freighter.Base.{
  Result, text_beq, true, ℕ, zero, suc, ◌≡◌, ok, some, Text, codes, text_beq_iff, arith,
  Result-cases, inl, inr,
}
use freighter.Types.Error.{StorageError}
use freighter.Storage.Metadata.{FileResponse, default_metadata}
use freighter.Storage.S3.{Client, pull_object, put_object, check_rounds, check_bucket}

module _ (C : Client) where
  abbrev put_ok : Text → C.State → Result StorageError (Unit {0}) × C.State
  put_ok path =
      put_object C path (codes "ok")
        (record default_metadata { content_type = some (codes "text/plain") })

  rounds_read :
      (n : ℕ) (path : Text) (s s' : C.State)
      → check_rounds C n path s ≡ (ok tt, s')
      → (r : FileResponse) × (pull_object C path s' ≡ ok r) × (r.«data» ≡ codes "ok")
  unfolding check_rounds
  rounds_read zero path s s' h = absurd (ground arith)
  rounds_read (suc n) path s s' h = elim (Result-cases (pull_object C path s)) [
    | inl (obj, pulled) ↦
        let same : text_beq obj.«data» (codes "ok") ≡ true = ground arith in
        (obj, ground arith, (text_beq_iff obj.«data» (codes "ok")).0 same)
    | inr (StorageError.not_found, failed) ↦ elim (Result-cases (put_ok path s).0) [
      | inl (_, done) ↦ rounds_read n path (put_ok path s).1 s' (ground arith)
      | inr (e, unwritten) ↦ absurd (ground arith)
    ]
    | inr (StorageError.service_error e, failed) ↦ absurd (ground arith)
  ]

  -- A health check that succeeds ends in a state in which the object of the check is pulled and
  -- says `ok`.
  check_bucket_ok :
      (path : Text) (s s' : C.State)
      → check_bucket C path s ≡ (ok tt, s')
      → (r : FileResponse) × (pull_object C path s' ≡ ok r) × (r.«data» ≡ codes "ok")
  unfolding check_bucket
  check_bucket_ok path s s' h = rounds_read 3 path s s' h
