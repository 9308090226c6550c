-- ===== src/Server/Body.antt =====
-- The body of a publish request: `publish` of crates/freighter-server/src/api.rs takes apart what
-- `Client::publish` of crates/freighter-client/src/lib.rs puts together.
use freighter.Base.{
  length-drop, length-take-drop, >>=-eq-ok, append-nil, ℕ, ◌+◌, ◌*◌, ◌/◌, ◌%◌, ◌≤◌, ◌<◌, leb, ltb,
  ◌≡◌, refl, [], ◌∷◌, ◌++◌, codes, Bytes, Result, ok, err, ◌>>=◌, if◌then◌else◌, length, take, drop,
  take-append, drop-append, length-append, arith,
}
use freighter.Types.Error.{Rejection, plain}

-- `u32::to_le_bytes`
unfoldable pub to_le_bytes : ℕ → Bytes
to_le_bytes n = (n % 256) ∷ (n / 256 % 256) ∷ (n / 65536 % 256) ∷ (n / 16777216 % 256) ∷ []

-- `u32::from_le_bytes` on the four bytes that `split_to(4)` gives.
unfoldable pub from_le_bytes : Bytes → ℕ
from_le_bytes (a ∷ b ∷ c ∷ d ∷ []) = a + 256 * b + 65536 * c + 16777216 * d
from_le_bytes _ = 0

-- The buffer that the client sends.
unfoldable pub publish_buffer : Bytes → Bytes → Bytes
publish_buffer serialized tarball =
    to_le_bytes (length serialized) ++ (serialized ++ (to_le_bytes (length tarball) ++ tarball))

-- The first half: the JSON, and the body behind it.
unfoldable pub body_json : Bytes → Result Rejection (Bytes × Bytes)
body_json body =
    if leb (length body) 4
    then err (plain 400 (codes "Missing body"))
    else let json_len = from_le_bytes (take 4 body) in
      let rest = drop 4 body in
      if ltb (length rest) json_len
      then err (plain 400 [])
      else ok (take json_len rest, drop json_len rest)

-- The second half: the tarball, and the bytes behind it.
unfoldable pub body_crate : Bytes → Result Rejection (Bytes × Bytes)
body_crate body =
    if leb (length body) 4
    then err (plain 400 [])
    else let crate_len = from_le_bytes (take 4 body) in
      let rest = drop 4 body in
      if ltb (length rest) crate_len
      then err (plain 400 (codes "Crate data truncated"))
      else ok (take crate_len rest, drop crate_len rest)

-- The JSON, the tarball, and what is behind them, which the server ignores.
unfoldable pub parse_body : Bytes → Result Rejection (Bytes × Bytes × Bytes)
parse_body body = do
  (json_bytes, rest) ← body_json body
  (crate_bytes, ignored) ← body_crate rest
  ok (json_bytes, crate_bytes, ignored)

le_bytes_back : (n : ℕ) → n < 4294967296 → from_le_bytes (to_le_bytes n) ≡ n
unfolding from_le_bytes to_le_bytes
le_bytes_back n h = omega arith

le_bytes_four :
    (n : ℕ) (rest : Bytes)
    → (take 4 (to_le_bytes n ++ rest) ≡ to_le_bytes n) × (drop 4 (to_le_bytes n ++ rest) ≡ rest)
unfolding to_le_bytes
le_bytes_four n rest = (refl, refl)

length-le_bytes : (n : ℕ) (rest : Bytes) → length (to_le_bytes n ++ rest) ≡ 4 + length rest
unfolding to_le_bytes
length-le_bytes n rest = omega arith

-- Each half reads a part behind its length.
module _ (part rest : Bytes) (filled : 1 ≤ length (part ++ rest))
    (short : length part < 4294967296) where
  json-part : body_json (to_le_bytes (length part) ++ (part ++ rest)) ≡ ok (part, rest)
  unfolding body_json
  json-part = ground (
    arith,
    (le_bytes_four (length part) (part ++ rest)).0,
    (le_bytes_four (length part) (part ++ rest)).1,
    le_bytes_back (length part) short,
    length-le_bytes (length part) (part ++ rest),
    length-append part rest,
    take-append part rest,
    drop-append part rest,
  )

  crate-part : body_crate (to_le_bytes (length part) ++ (part ++ rest)) ≡ ok (part, rest)
  unfolding body_crate
  crate-part = ground (
    arith,
    (le_bytes_four (length part) (part ++ rest)).0,
    (le_bytes_four (length part) (part ++ rest)).1,
    le_bytes_back (length part) short,
    length-le_bytes (length part) (part ++ rest),
    length-append part rest,
    take-append part rest,
    drop-append part rest,
  )

-- The server takes apart what the client put together, with nothing left over, if the tarball is
-- not empty and both parts are shorter than 2^32 bytes.
pub parse-publish_buffer :
    (serialized tarball : Bytes)
    → 1 ≤ length tarball
    → length serialized < 4294967296
    → length tarball < 4294967296
    → parse_body (publish_buffer serialized tarball) ≡ ok (serialized, tarball, [])
unfolding parse_body publish_buffer
parse-publish_buffer serialized tarball h js ts =
    let tail = to_le_bytes (length tarball) ++ tarball in
    let more : 1 ≤ length (serialized ++ tail) =
      omega (arith, length-append serialized tail, length-le_bytes (length tarball) tarball) in
    let second : body_crate tail ≡ ok (tarball, []) =
      rw (append-nil tarball) at (crate-part tarball [] (rw (append-nil tarball) h) ts) in
    rw (json-part serialized tail more js, second)

json_bounds :
    (body part rest : Bytes)
    → body_json body ≡ ok (part, rest)
    → 4 + length part + length rest ≡ length body
unfolding body_json
json_bounds body part rest h =
    ground (arith, length-drop 4 body, length-take-drop (from_le_bytes (take 4 body)) (drop 4 body))

crate_bounds :
    (body part rest : Bytes)
    → body_crate body ≡ ok (part, rest)
    → 4 + length part + length rest ≡ length body
unfolding body_crate
crate_bounds body part rest h =
    ground (arith, length-drop 4 body, length-take-drop (from_le_bytes (take 4 body)) (drop 4 body))

-- The parts of a body that is accepted, with what is ignored at its end and the two length fields,
-- are together as long as the body.
parse_body_bounds :
    (body json_bytes crate_bytes rest : Bytes)
    → parse_body body ≡ ok (json_bytes, crate_bytes, rest)
    → 8 + length json_bytes + length crate_bytes + length rest ≡ length body
unfolding parse_body
parse_body_bounds body json_bytes crate_bytes rest h =
    let ((part, tail), first, h') = >>=-eq-ok (body_json body) _ h in
    let ((crate, ignored), second, h'') = >>=-eq-ok (body_crate tail) _ h' in
    ground (arith, json_bounds body part tail first, crate_bounds tail crate ignored second)

-- The frame that the client makes of a JSON of less than 2^32 bytes and an empty tarball is
-- refused by the server with status 400.
empty_tarball_refused :
    (serialized : Bytes)
    → length serialized < 4294967296
    → parse_body (publish_buffer serialized []) ≡ err (plain 400 [])
unfolding parse_body publish_buffer body_crate to_le_bytes
empty_tarball_refused serialized js =
    let tail = to_le_bytes 0 ++ [] in
    let more : 1 ≤ length (serialized ++ tail) = omega (arith, length-append serialized tail) in
    rw (json-part serialized tail more js)
