-- ===== src/Errors.antt =====
-- The errors of the docker driver, one for each kind of failure; the two messages about one file of the
-- sidecar share an error.
use whaleshell_driver.Base.{Str}
use whaleshell_driver.Gpu.{GpuError}
use whaleshell_driver.Mounts.Workspace.{WorkspaceError}

pub data Error : Type 0 where
  client_not_initialized name_required port_range published_port_range : Error
  gpu : GpuError → Error
  workspace : WorkspaceError → Error
  driver_config : Error
  list_failed already_exists : Str → Error
  supervisor_needs_init_and_policy supervisor_binary_unavailable : Error
  ssh_needs_proxy ssh_bin_required ssh_bin_missing init_bin_missing : Error
  image_inspect_failed image_without_id image_never_pulled image_not_found : Str → Error
  pull_failed pull_as_failed registry_auth_failed : Str → Error
  network_unverifiable network_not_internal network_not_isolated : Str → Error
  network_not_verified network_create_failed volume_create_failed : Str → Error
  proxy_port proxy_bin_missing proxy_policy_required proxy_policy_missing : Error
  proxy_file_unavailable guest_tls_unavailable spiffe_socket : Error
  proxy_create_failed proxy_connect_failed proxy_start_failed : Error
  proxy_ca_timeout proxy_listen_timeout cancelled : Error
  display_image_without_gui : Str → Error
  create_failed create_with_gpu_failed : Str → Error
  start_failed stop_failed : Error
  delete_inspect_failed inspect_failed inspect_empty_name : Error
  sandbox_not_found policy_path_failed no_policy_bind : Str → Error
  no_container_ip : Str → Error
  exec_empty_argv exec_inspect_container exec_no_config exec_create_failed : Error
  exec_attach_failed exec_raw_terminal exec_inspect_failed : Error
  ssh_disabled not_running sshd_create_failed sshd_start_failed sshd_timeout : Error
  layout_failed : Error
  -- a nil pointer is read: the call panics and returns nothing
  nil_dereference : Error
