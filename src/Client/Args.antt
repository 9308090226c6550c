-- ===== src/Client/Args.antt =====
-- The arguments of the command-line client, crates/freighter-client/src/main.rs.
use freighter.Base.{Option, List, Text}

pub data Command : Type 0 where
  register : Text → Command
  download : List Text → Command
  publish : List Text → Command

pub record Args : Type 0 where
  pub registry_url : Text
  pub auth_token : Option Text
  pub command : Command
