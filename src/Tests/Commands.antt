-- ===== src/Tests/Commands.antt =====
-- An example of the commands of the client: a crate is downloaded twice.
use freighter.Base.{
  ◌≡◌, refl, List, [], ◌∷◌, Text, text_eq, text_beq, text_beq_iff, codes, ok, err, any, split_once,
  arith,
}
use freighter.Base.Acts.{◌>>=◌, lift, pure, gets}
use freighter.Client.{download_crate, build, attach_if_required, send, error_for_status}
use freighter.Server.Client.{crate_prefix}
use freighter.Client.Template.{apply_markers, replace_from}
use freighter.Client.Commands.{Directory, download_spec, download_all}
use freighter.Client.Commands.Again.{IsDirectory, download_again}
use freighter.Tests.Tar.{cargo}
use freighter.Tests.Web.{connected}

-- A directory as the paths of its files.
abbrev directory : Directory
directory = record {
  State = List Text;
  exists = λ path d. any (text_beq path) d;
  read = λ path d. err [];
  write = λ path bytes d. (ok tt, path ∷ d);
}

directory-IsDirectory : IsDirectory directory
directory-IsDirectory = record {
  written_exists = λ path bytes d h. ground (arith, text_beq_iff path path);
  exists_stays = λ path other bytes d h. ground (arith, h);
}

abbrev specs : List Text
specs = codes "serde@1.0.0" ∷ []

abbrev there : List Text
there = codes "serde-1.0.0.crate" ∷ []

downloaded : download_all cargo directory specs (connected, []) ≡ (ok tt, (connected, there))
unfolding download_all download_spec split_once download_crate apply_markers replace_from
    crate_prefix build attach_if_required send error_for_status ◌>>=◌ lift pure gets text_beq
downloaded = refl

download_again_example :
    download_all cargo directory specs (connected, there) ≡ (ok tt, (connected, there))
download_again_example =
    download_again cargo directory specs connected connected connected [] there
      directory-IsDirectory downloaded
