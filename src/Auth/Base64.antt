-- ===== src/Auth/Base64.antt =====
-- crates/freighter-auth/src/base64_serde.rs, over the crate `base64` as a parameter.
use freighter.Base.{
  ℕ, ◌≡◌, Option, none, some, Text, Bytes, length, not, eqb, if◌then◌else◌, arith, Result, ok,
  unwrap_or, err, ◌++◌, codes, ◌∙◌, refl,
}

-- `URL_SAFE_NO_PAD` and `base64::encoded_len(_, false)`.
pub record Base64 : Type 0 where
  pub encode_string : Bytes → Text
  pub encoded_len : ℕ → Option ℕ
  pub decode_slice : Text → Option Bytes

-- What `base64` promises: the length of an encoding, and that it is undone.
pub record IsCodec (b : Base64) : Type 0 where
  pub encode_length :
      (bytes : Bytes) → b.encoded_len (length bytes) ≡ some (length (b.encode_string bytes))
  pub decode_encode : (bytes : Bytes) → b.decode_slice (b.encode_string bytes) ≡ some bytes

-- `encode`
unfoldable pub encode : Base64 → Bytes → Text
encode b binary = b.encode_string binary

-- `decode::<N>`
unfoldable pub decode : Base64 → ℕ → Text → Option Bytes
decode b n base64 = elim (b.encoded_len n) [
  | none ↦ none
  | some len ↦ if not (eqb (length base64) len) then none else b.decode_slice base64
]

-- `decode` at the right length takes back what `encode` wrote.
pub decode-encode :
    (b : Base64)
    → IsCodec b
    → (bytes : Bytes) → decode b (length bytes) (encode b bytes) ≡ some bytes
unfolding decode encode
decode-encode b codec bytes = ground (arith, codec.encode_length bytes, codec.decode_encode bytes)

-- `serde` at a string: the format that is written, and the format that is read.
pub record Serializer : Type 1 where
  pub Output : Type 0
  pub Failure : Type 0
  pub serialize_str : Text → Result Failure Output

pub record Deserializer : Type 1 where
  pub Failure : Type 0
  pub deserialize_str : (Text → Result Failure Bytes) → Result Failure Bytes
  pub invalid_value : Text → Text → Failure

unfoldable pub serialize : Base64 → Bytes → (f : Serializer) → Result f.Failure f.Output
serialize b binary f = f.serialize_str (encode b binary)

module _ (b : Base64) (display : ℕ → Text) (n : ℕ) where
  -- `TokenVisitor`: what it says that it expects, and its two methods, which are the same.
  unfoldable pub expecting : Text
  expecting =
      display (unwrap_or (b.encoded_len n) 0)
      ++ (codes " base64 chars for " ++ (display n ++ codes " bytes"))

  unfoldable pub visit_str : (f : Deserializer) → Text → Result f.Failure Bytes
  visit_str f s = elim (decode b n s) [
    | none ↦ err (f.invalid_value s expecting)
    | some bytes ↦ ok bytes
  ]

  -- `deserialize::<_, N>`
  unfoldable pub deserialize : (f : Deserializer) → Result f.Failure Bytes
  deserialize f = f.deserialize_str (visit_str f)

-- What was serialized is read back by a deserializer that holds the string that was written.
deserialize-serialize_bytes :
    (b : Base64) (display : ℕ → Text) (bytes : Bytes) (f : Serializer) (out : f.Output)
    (g : f.Output → Deserializer)
    → IsCodec b
    → ((t : Text) (o : f.Output)
        → f.serialize_str t ≡ ok o
        → (visit : Text → Result ((g o).Failure) Bytes) → (g o).deserialize_str visit ≡ visit t)
    → serialize b bytes f ≡ ok out
    → deserialize b display (length bytes) (g out) ≡ ok bytes
unfolding serialize deserialize visit_str
deserialize-serialize_bytes b display bytes f out g codec holds h =
    holds (encode b bytes) out h (visit_str b display (length bytes) (g out))
    ∙ rw (decode-encode b codec bytes, visit_str) refl
