-- ===== src/Tests/Buckets.antt =====
-- Examples of the S3 storage over a bucket that keeps its promises.
use freighter.Base.{◌≡◌, refl, none, some, [], ◌∷◌, Text, text_eq, text_beq, Bytes, codes, ok, err}
use freighter.Base.Dict
use freighter.Base.Dict.{Dict}
use freighter.Storage.S3.{
  Client, no_such_key, pull_object, put_object, check_rounds, check_bucket, construct_paths,
}

-- Objects by their keys.
abbrev pub shelf : Client
shelf = record {
  State = Dict Text Bytes;
  get_object = λ path s. elim (Dict.lookup path s) [
    | none ↦ err no_such_key
    | some bytes ↦ ok (record { last_modified = none; body = ok bytes })
  ];
  put_object = λ path bytes r s. (ok tt, Dict.insert path bytes s);
  delete_object = λ path s. (ok tt, Dict.remove path s);
  list_objects = λ prefix s. ok (Dict.keys s);
  base64 = λ bytes. bytes;
  hex = λ bytes. bytes;
}

abbrev pub serde_1 : Text
serde_1 = (construct_paths shelf (codes "serde") (1 ∷ []) []).1

abbrev serde_stored : Dict Text Bytes
serde_stored = (serde_1, 9 ∷ []) ∷ []

-- The first check of an empty bucket.
first_check : check_bucket shelf (codes "health") [] ≡ (ok tt, (codes "health", codes "ok") ∷ [])
unfolding check_bucket check_rounds pull_object put_object Dict.lookup Dict.insert text_beq
first_check = refl
