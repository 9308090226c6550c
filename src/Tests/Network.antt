-- ===== src/Tests/Network.antt =====
-- A network, and `axum` with a few routes.
use freighter.Base.{
  ◌≡◌, ◌+◌, refl, true, Option, none, some, List, [], ◌∷◌, ◌++◌, map, Text, Bytes, codes, Result,
  ok, err, text_beq, strip_prefix, if◌then◌else◌, length, arith, unwrap_or, leb, inl, inr,
  has_infix, suc, zero, Option-cases, ◌&&◌, not, eqb,
}
use freighter.Base.Dict
use freighter.Types.Error.{AnyError, plain}
use freighter.Types.Index.{CompletedPublication, CompletedPublicationWarnings}
use freighter.Auth.Provider.{HeaderMap, default_token_from_headers}
use freighter.Server.Routes.{Method, Endpoint, Router, router}
use freighter.Server.Router.{Axum, Reply, Selected, found, method_not_allowed}
use freighter.Client.Wire.{Http}
use freighter.Server.Router.Sparse.{RoutesIndex}
use freighter.Server.Client.{is_plain_path}
use freighter.Registry.{Network, IsAxum, IsNetwork}
use freighter.Tests.Files.{numbers, codec, codec-IsJson}
use freighter.Tests.Service.{platform}

-- Lists of texts as bytes.
abbrev write_text : Text → Bytes → Bytes
write_text t rest = 1 ∷ (map (λ c. c + 2) t ++ rest)

abbrev write_texts : List Text → Bytes → Bytes
write_texts [] rest = rest
write_texts (t ∷ ts) rest = write_text t (write_texts ts rest)

abbrev read_texts : Bytes → Text × List Text × List (List Text)
read_texts [] = ([], [], [])
read_texts (zero ∷ r) = let (t, ts, rest) = read_texts r in ([], [], ts ∷ rest)
read_texts (suc zero ∷ r) = let (t, ts, rest) = read_texts r in ([], t ∷ ts, rest)
read_texts (suc (suc c) ∷ r) = let (t, ts, rest) = read_texts r in (c ∷ t, ts, rest)

read_chars :
    (t : Text) (rest : Bytes) (ts : List Text) (lists : List (List Text))
    → read_texts rest ≡ ([], ts, lists)
    → read_texts (map (λ c. c + 2) t ++ rest) ≡ (t, ts, lists)
read_chars [] rest ts lists h = h
read_chars (c ∷ t) rest ts lists h = ground (arith, read_chars t rest ts lists h)

read-write_texts :
    (ts : List Text) (rest : Bytes) (lists : List (List Text))
    → read_texts rest ≡ ([], [], lists)
    → read_texts (write_texts ts rest) ≡ ([], ts, lists)
read-write_texts [] rest lists h = h
read-write_texts (t ∷ ts) rest lists h =
    ground (arith, read_chars t (write_texts ts rest) ts lists (read-write_texts ts rest lists h))

abbrev write_completed : CompletedPublication → Bytes
write_completed c = elim c.warnings [
  | none ↦ []
  | some w ↦
      0
      ∷ write_texts w.invalid_categories
          (0 ∷ write_texts w.invalid_badges (0 ∷ write_texts w.other []))
]

abbrev of_lists : List (List Text) → Option CompletedPublicationWarnings
of_lists (a ∷ b ∷ c ∷ []) = some (record { invalid_categories = a; invalid_badges = b; other = c })
of_lists _ = none

abbrev read_completed : Bytes → Result AnyError CompletedPublication
read_completed bytes = ok (record { warnings = of_lists (read_texts bytes).2 })

read-write_completed : (c : CompletedPublication) → read_completed (write_completed c) ≡ ok c
read-write_completed c = elim (Option-cases c.warnings) [
  | inl quiet ↦ ground (arith, quiet)
  | inr (w, loud) ↦
      let third = 0 ∷ write_texts w.other [] in
      let second = 0 ∷ write_texts w.invalid_badges third in
      ground (
        arith,
        loud,
        read-write_texts w.other [] [] refl,
        read-write_texts w.invalid_badges third (w.other ∷ []),
        read-write_texts w.invalid_categories second (w.invalid_badges ∷ w.other ∷ []),
      )
]

-- A matcher that knows the paths without parameters, and a limit on bodies.
abbrev select : Router → Method → Text → Selected
select r Method.put path =
    if text_beq path (codes "/api/v1/crates/new")
    then found Endpoint.publish []
    else method_not_allowed
select r Method.post path =
    if text_beq path (codes "/api/v1/crates/account")
    then found Endpoint.register []
    else method_not_allowed
select r Method.get path = elim (strip_prefix (codes "/index/") path) [
  | some (c ∷ rest) ↦
      if is_plain_path (c ∷ rest) && not (eqb c b'/')
      then found Endpoint.get_sparse_meta ((c ∷ rest) ∷ [])
      else if text_beq (c ∷ rest) (codes "config.json")
      then found Endpoint.config []
      else found Endpoint.global_fallback []
  | _ ↦ found Endpoint.global_fallback []
]
select r _ path = method_not_allowed

abbrev pub axum : Axum numbers
axum = record {
  select = select;
  path_text = λ ps. elim ps [ p ∷ [] ↦ ok p | _ ↦ err (plain 400 []) ];
  path_version = λ ps. err (plain 400 []);
  bytes = λ limit body. if leb (length body) limit then ok body else err (plain 413 []);
  json_users = λ limit headers body. err (plain 415 []);
  form_username = λ limit headers body. err (plain 415 []);
  search_query = λ query. err (plain 400 []);
  list_query = λ query. err (plain 400 []);
}

pub axum-IsAxum : IsAxum axum
unfolding router text_beq strip_prefix
axum-IsAxum = record {
  static_routes = (
    ((λ h. cc), tt),
    (
      ((λ h. refl), ((λ h. cc), tt)),
      (
        (
          (λ h. refl),
          (
            (λ h. cc),
            ((λ h. cc), ((λ h. cc), ((λ h. cc), ((λ h. cc), ((λ h. refl), ((λ h. cc), tt)))))),
          ),
        ),
        tt,
      ),
    ),
  );
  bytes_within = λ limit body h. ground arith;
  bytes_beyond = λ limit body h. (plain 413 [], ground arith, refl);
}

pub axum-RoutesIndex : RoutesIndex axum
unfolding strip_prefix
axum-RoutesIndex = record {
  rest_routed = λ c rest first plain. ground (arith, first, plain);
  plain_decoded = λ path plain. refl;
}

abbrev pub api : Text
api = codes "localhost"

abbrev pub token_header : List Text → HeaderMap
token_header tokens = record {
  values = elim tokens [ [] ↦ [] | token ∷ _ ↦ (codes "authorization", token) ∷ [] ];
  to_str = λ bytes. some bytes;
}

abbrev pub network : Network numbers
network = record {
  request_of = λ req. record {
    method = if text_beq req.method (codes "PUT") then Method.put else Method.unrouted req.method;
    path = unwrap_or (strip_prefix (codes "http://localhost") req.url) [];
    query = [];
    headers = token_header req.authorization;
    body = req.body;
  };
  response_of = λ r. elim r [
    | err e ↦ record { status = e.status; text = ok []; bytes = ok [] }
    | ok (Reply.completed c) ↦ record { status = 200; text = ok []; bytes = ok (write_completed c) }
    | ok _ ↦ record { status = 200; text = ok []; bytes = ok [] }
  ];
}

abbrev pub http : Http numbers
http = record {
  World = Unit {0};
  is_url = λ url. true;
  is_header_value = λ t. true;
  url_error = λ url. [];
  header_error = λ t. [];
  status_message = λ n. [];
  execute = λ req w. (ok (record { status = 200; text = ok []; bytes = ok [] }), w);
  config_from_slice = λ bytes. err [];
  completed_from_slice = read_completed;
  list_from_slice = λ bytes. err [];
  version_from_str = λ line. err [];
  publish_to_vec = codec.publish_to_json;
}

status_ok : (r : Reply numbers) → (network.response_of (ok r)).status ≡ 200
status_ok (Reply.completed c) = refl
status_ok _ = refl

pub network-IsNetwork : IsNetwork network http platform api
unfolding strip_prefix text_beq has_infix Dict.lookup default_token_from_headers
network-IsNetwork = record {
  path_arrives = λ req path h bare. rw h;
  put_arrives = λ req h. rw h;
  body_arrives = λ req plain. refl;
  token_arrives = λ req token h visible. rw h;
  refusal_arrives = λ e. refl;
  reply_arrives = λ r. status_ok r;
  completed_arrives = λ c. (write_completed c, refl, read-write_completed c);
  publish_read_back = λ p bytes h. (codec-IsJson.publish_line p bytes h).2;
}
