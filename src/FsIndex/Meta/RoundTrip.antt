-- ===== src/FsIndex/Meta/RoundTrip.antt =====
-- What `serialize_data` writes, `deserialize_data` reads back.
use freighter.Base.{
  ◌≡◌, refl, true, not, Option, none, some, List, [], ◌∷◌, ◌++◌, Bytes, Result, ok, ◌>>=◌, map_err,
  all, arith, append_assoc, append-nil, Result-cases, inl, inr, >>=-eq-ok, ◌∙◌,
}
use freighter.Types.Error.{IndexError, service_error}
use freighter.Types.Index.{Semver, CrateVersion, Publish}
use freighter.FsIndex.Meta.{
  Json, is_newline, split_lines, is_filled, lines, read_lines, deserialize_data, write_versions,
  write_publish, serialize_data,
}

-- One line: no newline in it, and something.
abbrev pub IsLine : Bytes → Type 0
IsLine line = (all (λ c. not (is_newline c)) line ≡ true) × (is_filled line ≡ true)

-- What `serde_json` promises: JSON on one line that is read back. A publish request lacks the
-- `cksum` that an index entry must have.
pub record IsJson {S : Semver} (J : Json S) : Type 0 where
  pub version_line :
      (v : CrateVersion S) (line : Bytes)
      → J.version_to_json v ≡ ok line
      → IsLine line × (J.version_of_json line ≡ some v)
  pub publish_line :
      (p : Publish S) (line : Bytes)
      → J.publish_to_json p ≡ ok line
      → IsLine line × (J.version_of_json line ≡ none) × (J.publish_of_json line ≡ some p)

split-line :
    (line rest : Bytes)
    → all (λ c. not (is_newline c)) line ≡ true
    → split_lines (line ++ 10 ∷ rest) ≡ (line, (split_lines rest).0 ∷ (split_lines rest).1)
unfolding split_lines
split-line [] rest h = refl
split-line (c ∷ line) rest h = ground (arith, split-line line rest)

lines-line : (line rest : Bytes) → IsLine line → lines (line ++ 10 ∷ rest) ≡ line ∷ lines rest
unfolding lines
lines-line line rest h = ground (arith, split-line line rest)

-- The bytes of a list of versions, without the accumulator.
version_bytes : {S : Semver} (J : Json S) → List (CrateVersion S) → Result IndexError Bytes
version_bytes J [] = ok []
version_bytes J (v ∷ vs) = do
  line ← map_err service_error (J.version_to_json v)
  rest ← version_bytes J vs
  ok (line ++ 10 ∷ rest)

module _ {S : Semver} (J : Json S) where
  write-version_bytes :
      (acc : Bytes) (vs : List (CrateVersion S)) (out : Bytes)
      → write_versions J acc vs ≡ ok out
      → (bytes : Bytes) × (version_bytes J vs ≡ ok bytes) × (out ≡ acc ++ bytes)
  unfolding write_versions version_bytes
  write-version_bytes acc [] out h = ([], refl, ground (arith, append-nil acc))
  write-version_bytes acc (v ∷ vs) out h = elim (Result-cases (J.version_to_json v)) [
    | inl (line, e) ↦
        let (bytes, e', p) = write-version_bytes (acc ++ (line ++ 10 ∷ [])) vs out (ground arith) in
        (line ++ 10 ∷ bytes, rw (e, e'), simp append_assoc at p)
    | inr (f, e) ↦ absurd (ground arith)
  ]

  read-line :
      (seen : List (CrateVersion S)) (line : Bytes) (v : CrateVersion S) (rest : List Bytes)
      → J.version_of_json line ≡ some v
      → read_lines J seen none (line ∷ rest) ≡ read_lines J (seen ++ v ∷ []) none rest
  unfolding read_lines
  read-line seen line v rest e = ground arith

  module _ (laws : IsJson J) where
    read-version_bytes :
        (seen vs : List (CrateVersion S)) (bytes rest : Bytes)
        → version_bytes J vs ≡ ok bytes
        → read_lines J seen none (lines (bytes ++ rest))
          ≡ read_lines J (seen ++ vs) none (lines rest)
    unfolding version_bytes
    read-version_bytes seen [] bytes rest h = let p : bytes ≡ [] = cc in rw p (rw (append-nil seen))
    read-version_bytes seen (v ∷ vs) bytes rest h = elim (Result-cases (J.version_to_json v)) [
      | inr (f, e) ↦ absurd (ground arith)
      | inl (line, e) ↦ elim (Result-cases (version_bytes J vs)) [
        | inr (f, e') ↦ absurd (ground arith)
        | inl (tail, e') ↦
            let p : bytes ≡ line ++ 10 ∷ tail = ground arith in
            let one : lines (bytes ++ rest) ≡ line ∷ lines (tail ++ rest) =
              rw (p, append_assoc)
                (lines-line line (tail ++ rest) (laws.version_line v line e).0) in
            rw one (
              read-line seen line v (lines (tail ++ rest)) (laws.version_line v line e).1
              ∙ (read-version_bytes (seen ++ v ∷ []) vs tail rest e'
                  ∙ rw (append_assoc seen (v ∷ []) vs)))
      ]
    ]

    read-publish :
        (vs : List (CrateVersion S)) (publish : Option (Publish S)) (acc bytes : Bytes)
        → write_publish J acc publish ≡ ok bytes
        → (rest : Bytes) × (bytes ≡ acc ++ rest)
          × (read_lines J vs none (lines rest) ≡ ok (vs, publish))
    unfolding write_publish read_lines lines split_lines
    read-publish vs none acc bytes h = ([], ground (arith, append-nil acc), refl)
    read-publish vs (some p) acc bytes h = elim (Result-cases (J.publish_to_json p)) [
      | inr (f, e) ↦ absurd (ground arith)
      | inl (line, e) ↦
          let law = laws.publish_line p line e in
          (line ++ 10 ∷ [], ground arith, rw (split-line line [] law.0.0) (ground (arith, law)))
    ]

    -- With JSON that keeps its promises, an index file that was written for a list of versions and
    -- a publish request is read back as that list and that request.
    pub deserialize-serialize :
        (vs : List (CrateVersion S)) (publish : Option (Publish S)) (bytes : Bytes)
        → serialize_data J vs publish ≡ ok bytes
        → deserialize_data J bytes ≡ ok (vs, publish)
    unfolding serialize_data deserialize_data
    deserialize-serialize vs publish bytes h =
        let (acc, written, rest_written) = >>=-eq-ok (write_versions J [] vs) _ h in
        let (body, body_written, p) = write-version_bytes [] vs acc written in
        let (rest, q, published) = read-publish vs publish acc bytes rest_written in
        rw (q, p) (read-version_bytes [] vs body rest body_written ∙ published)
