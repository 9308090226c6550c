-- ===== src/Tests/Cf.antt =====
-- Examples of the Cloudflare provider, with keys that are downloaded and a clock of ticks.
use freighter.Base.{
  ends_with, text_eq, text_beq, contains, ℕ, suc, ◌≡◌, refl, none, some, List, [], ◌∷◌, Text, codes,
  ok, true, arith,
}
use freighter.Base.Dict
use freighter.Base.Acts.{◌>>=◌, lift, pure, raise, gets, modify}
use freighter.Auth.Cf.{
  Platform, Claims, PublicKeyUse, CfAccess, CfAuth, refresh, ready, is_service_token,
  user_of_claims, usable_keys, download, fetch, now, user_of_token, user_in_rounds,
  validated_user_id, publish,
}
use freighter.Auth.Cf.Rounds.{IsClock, Waits, ready_total}
use freighter.Auth.Cf.Access.{Signed, IsService, publish-IsService}

-- The world is the time. Every token is one of the service `ci.access`.
abbrev ticks : Platform
ticks = record {
  World = ℕ;
  Key = List ℕ;
  now = λ w. (w, suc w);
  get_jwk_set = λ url w. (
    ok (
        record {
          public_key_use = some PublicKeyUse.signature;
          key_id = some (codes "k");
          material = 7 ∷ [];
        }
        ∷ []),
    suc w,
  );
  from_jwk = λ k. ok k.material;
  decode_header = λ token. some (some (codes "k"));
  decode =
      λ token key audience w. some (record { common_name = some (codes "ci.access"); sub = none });
  split_parse = λ cookies. [];
}

ticks-IsClock : IsClock ticks
ticks-IsClock = record { forward = λ w. omega arith; prompt = λ w. omega arith }

abbrev waiting : CfAccess ticks
waiting = record {
  jwks_url = codes "https://team/certs";
  audience = codes "a";
  next_fetch = 3;
  keys = [];
  world = 5;
}

ready_total_example : Waits ticks-IsClock waiting (ready 5 waiting)
ready_total_example = ready_total ticks-IsClock 3 waiting

abbrev ci : CfAuth ticks
ci = record {
  team_base_url = codes "https://team";
  access = waiting;
  publish_access_ids = codes "ci.access" ∷ [];
}

abbrev published : CfAuth ticks
published = (publish (codes "t") (codes "serde") ci).1

accepted : publish (codes "t") (codes "serde") ci ≡ (ok tt, published)
unfolding publish validated_user_id user_in_rounds ready refresh fetch download now usable_keys
    user_of_token user_of_claims is_service_token Dict.lookup Dict.insert text_beq ◌>>=◌ lift pure
    raise gets modify ends_with
accepted = refl

publish-IsService_example :
    (id : Text) × (claims : Claims) × Signed (codes "t") published.access claims
    × IsService claims id
    × (contains ci.publish_access_ids id ≡ true)
publish-IsService_example = publish-IsService (codes "t") (codes "serde") ci published accepted
