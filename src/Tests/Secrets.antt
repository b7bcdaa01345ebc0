-- ===== src/Tests/Secrets.antt =====
-- A credential file with an entry for `docker.io` under its old key.
use whaleshell_driver.Base.{codes, true, false, [], ◌∷◌, none, some, pos}
use whaleshell_driver.Config.{Machine}
use whaleshell_driver.Defaults.{FileInfo}
use whaleshell_driver.Podman.Credentials.{Libraries, Credential, Presence}
use whaleshell_driver.Podman.Credentials.Origin.{Origin}
use whaleshell_driver.Tests.Samples.{sample_host}

abbrev small_file : FileInfo
small_file = record {
  is_dir = false;
  is_regular = true;
  is_socket = false;
  is_executable = false;
  size = 10;
}

abbrev machine : Machine
machine = record {
  host = record sample_host {
    stat = λ p. some small_file;
    open_file = λ p. some small_file;
    read_file = λ p. some (codes "{}");
  };
  parse_url = λ s. none;
  is_ip = λ s. true;
  has_certificates = λ s. true;
  is_bundle = λ s. true;
  overflowed = pos 0;
}

abbrev credential : Credential
credential = record {
  auth = codes "dTpw";
  username = [];
  password = [];
  identity_token = [];
  registry_token = [];
}

abbrev libraries : Libraries
libraries = record {
  machine = machine;
  domain_of = λ s. some (codes "docker.io");
  presence = λ p. Presence.absent;
  url_host = λ s. [];
  auths_of = λ s. some ((codes "index.docker.io/v1/", credential) ∷ []);
  decode_standard = λ s. some (codes "u:p");
  decode_raw = λ s. none;
  encode = λ c. some (c.username);
  docker_config = none;
}
