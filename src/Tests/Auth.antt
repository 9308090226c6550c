-- ===== src/Tests/Auth.antt =====
-- A platform that keeps its promises, and the examples of the file provider.
use freighter.Types.Error.{AnyError}
use freighter.Base.{
  ap, is_some, take-append, drop-append, ℕ, zero, suc, ◌≡◌, refl, Option, none, some, List, [], ◌∷◌,
  ◌++◌, Text, text_eq, Bytes, Result, ok, err, length, take, drop, arith, is_some, ap,
}
use freighter.Base.Dict.{Dict}
use freighter.Auth.Base64.{Base64, IsCodec}
use freighter.Auth.Owners.{HashedToken}
use freighter.Auth.Platform.{Platform, OwnersFile}
use freighter.Auth.Fs.Sound.{IsPlatform}

abbrev pub zeros : ℕ → Bytes
zeros zero = []
zeros (suc n) = 0 ∷ zeros n

length-zeros : (n : ℕ) → length (zeros n) ≡ n
length-zeros zero = refl
length-zeros (suc n) = ap suc (length-zeros n)

abbrev pub plain_base64 : Base64
plain_base64 = record {
  encode_string = λ b. b;
  encoded_len = λ n. some n;
  decode_slice = λ t. some t;
}

pub plain_base64-IsCodec : IsCodec plain_base64
plain_base64-IsCodec = record { encode_length = λ bytes. refl; decode_encode = λ bytes. refl }

-- A file of owners with one token and no crate: its length, the token, and the login.
abbrev write_fields : Dict Text (List Text) → Dict HashedToken Text → Result AnyError Bytes
write_fields [] ((token, login) ∷ []) = ok (length token ∷ (token ++ login))
write_fields _ _ = err []

abbrev read_file : Bytes → Result AnyError OwnersFile
read_file [] = err []
read_file (n ∷ t) = ok (record { token_owners = (take n t, drop n t) ∷ []; crate_owners = [] })

abbrev pub disk : Platform
disk = record {
  World = Option Bytes;
  create_dir_all = λ _ w. (ok tt, w);
  join = λ a b. a ++ b;
  parent = λ p. some [];
  try_exists = λ _ w. ok (is_some w);
  open_file = λ _ w. elim w [ none ↦ err [] | some bytes ↦ ok bytes ];
  temp_file_in = λ _ _. ok tt;
  persist = λ _ bytes w. (ok tt, some bytes);
  from_reader = read_file;
  to_writer = λ f. write_fields f.crate_owners f.token_owners;
  random_bytes = λ n w. (zeros n, w);
  hmac_sha224 = λ key bytes. key ++ bytes;
  base64 = plain_base64;
}

read-write :
    (crates : Dict Text (List Text)) (tokens : Dict HashedToken Text) (bytes : Bytes)
    → write_fields crates tokens ≡ ok bytes
    → read_file bytes ≡ ok (record { token_owners = tokens; crate_owners = crates })
read-write [] [] bytes h = absurd (ground arith)
read-write [] ((token, login) ∷ []) bytes h =
    let eq : bytes ≡ length token ∷ (token ++ login) = ground arith in
    rw (eq, take-append token login, drop-append token login) refl
read-write [] ((token, login) ∷ _ ∷ _) bytes h = absurd (ground arith)
read-write (_ ∷ _) [] bytes h = absurd (ground arith)
read-write (_ ∷ _) (_ ∷ []) bytes h = absurd (ground arith)
read-write (_ ∷ _) (_ ∷ _ ∷ _) bytes h = absurd (ground arith)

pub disk-IsPlatform : IsPlatform disk
disk-IsPlatform = record {
  codec = plain_base64-IsCodec;
  random_length = λ n w. length-zeros n;
  random_exists = λ path n w. refl;
  random_open = λ path n w. refl;
  persist_exists = λ path bytes w. refl;
  persist_open = λ path bytes w. refl;
  reader_writer = λ f bytes h. read-write f.crate_owners f.token_owners bytes h;
}
