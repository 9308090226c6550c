-- ===== src/Tests/Web.antt =====
-- Examples of the client, and of the health check of the server.
use freighter.Base.{
  text_beq, ends_with, ℕ, ◌≡◌, refl, true, false, none, some, [], codes, ok, trim_end_matches,
  arith,
}
use freighter.Server.Root.{Check, Order, Timing}
use freighter.Client.Wire.{Http, Response, json}
use freighter.Client.{Client, from_reqwest, config_response, client_config}
use freighter.Client.Template.{sanitize_dl, apply_markers}
use freighter.Client.Download.{apply_markers-sanitize_dl}
use freighter.Tests.Files.{numbers, bare_version}
use freighter.Tests.Service.{auth, index, tarballs}

abbrev answer : Response
answer = record { status = 200; text = ok []; bytes = ok [] }

-- A registry that answers every request.
abbrev pub registry : Http numbers
registry = record {
  World = ℕ;
  is_url = λ url. true;
  is_header_value = λ t. true;
  url_error = λ url. [];
  header_error = λ t. [];
  status_message = λ n. [];
  execute = λ req w. (ok answer, w);
  config_from_slice =
      λ bytes. ok (record { dl = codes "d"; api = codes "a"; auth_required = false });
  completed_from_slice = λ bytes. ok (record { warnings = none });
  list_from_slice = λ bytes. ok [];
  version_from_str = λ line. ok (bare_version line 1 false);
  publish_to_vec = λ p. ok [];
}

abbrev pub connected : Client registry
connected = record {
  endpoint = codes "h";
  token = none;
  config = client_config (record { dl = codes "d"; api = codes "a"; auth_required = false });
  auth_required = false;
  world = 7;
}

connects : from_reqwest registry (codes "h/") none 7 ≡ (ok connected, 7)
unfolding from_reqwest config_response json trim_end_matches
connects = refl

plain_slash : ends_with (codes "/") (codes "https://d") ≡ false
unfolding ends_with text_beq
plain_slash = refl

apply_markers-sanitize_dl_example :
    apply_markers (sanitize_dl (codes "https://d")) (codes "serde") (codes "1.0.0") []
    ≡ some (codes "https://d/serde/1.0.0/download")
apply_markers-sanitize_dl_example =
    apply_markers-sanitize_dl (codes "https://d") (codes "serde") (codes "1.0.0") [] refl
      plain_slash refl refl (λ e. absurd (ground arith))

-- The index does not answer in time.
abbrev slow : Timing auth index tarballs
slow = record {
  order = Order.auth_storage_index;
  timed_out = λ c. elim c [ Check.index ↦ true | _ ↦ false ];
  cut_auth = λ s. s;
  cut_index = λ s. s;
  cut_storage = λ s. s;
}
