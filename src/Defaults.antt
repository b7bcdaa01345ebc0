-- ===== src/Defaults.antt =====
-- What the drivers take from outside the repository: the constants of the module
-- `cauteum-core/defaults`, and the host that they run on. Both are parameters of the model.
use whaleshell_driver.Base.{ℕ, Str, Bool, List, Option}

-- `github.com/cauteum-haven/cauteum-core/defaults`
pub record Defaults : Type 0 where
  pub image_debian : Str
  pub image_local : Str
  pub image_gui : Str
  pub image_gpu : Str
  pub image_proxy : Str
  pub proxy_port : ℕ
  pub no_vnc_port : ℕ
  pub sandbox_pids_limit : ℕ
  pub guest_root : Str
  pub guest_etc_osg : Str
  pub guest_workspace : Str
  pub guest_data : Str
  pub guest_home : Str
  pub guest_bin : Str
  pub guest_path : Str
  pub guest_ca_file : Str
  pub guest_ca_dir : Str
  pub guest_sshd : Str
  pub guest_ssh_log : Str
  pub guest_ssh_socket : Str
  pub host_internal : Str
  pub no_proxy_value : Str
  pub env_image_pull : Str
  -- PublishedImage, `none` where its second result is false
  pub published_image : Str → Option Str

-- What `os.Stat` tells of a path.
pub record FileInfo : Type 0 where
  pub is_dir : Bool
  pub is_regular : Bool
  pub is_socket : Bool
  pub is_executable : Bool
  pub size : ℕ

-- The process environment and the file system, which one operation sees unchanged. `none` is an
-- error of the call.
pub record Host : Type 0 where
  -- os.Getenv, empty where the variable is not set
  pub getenv : Str → Str
  pub user_home_dir : Option Str
  -- filepath.Abs
  pub abs : Str → Option Str
  pub eval_symlinks : Str → Option Str
  pub stat : Str → Option FileInfo
  -- os.Open, with the information of the opened file
  pub open_file : Str → Option FileInfo
  pub read_file : Str → Option Str
  -- the names of os.ReadDir
  pub read_dir : Str → Option (List Str)
