-- ===== src/Docker/Create/Naming.antt =====
-- The names of a sandbox's resources, in internal/docker/docker.go.
use whaleshell_driver.Base.{Str, codes, trim_space, ◌++◌}
use whaleshell_driver.Limits.{or_default}
use whaleshell_driver.Runtime.{Driver}

unfoldable pub network_name : Driver → Str → Str
unfolding trim_space
network_name d name =
    or_default (trim_space d.runtime_config.network_name) (codes "cauteum-net")
    ++ (codes "-" ++ name)

abbrev pub container_name : Str → Str
container_name name = codes "cauteum-" ++ name

abbrev pub proxy_name : Str → Str
proxy_name name = codes "cauteum-proxy-" ++ name

abbrev pub ca_volume : Str → Str
ca_volume name = codes "cauteum-ca-" ++ name

abbrev pub ssh_volume : Str → Str
ssh_volume name = codes "cauteum-ssh-" ++ name

abbrev pub data_volume : Str → Str
data_volume name = codes "cauteum-data-" ++ name
