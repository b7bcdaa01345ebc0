-- ===== src/Docker/Start.antt =====
-- `Start` and `ensureGuestLayout` of internal/docker/docker.go. What they write to the standard error is
-- left out, the request for the logs is kept.
pub mod Outcome
use whaleshell_driver.Base.{
  ℕ, Str, codes, ◌==◌, is_nil, Bool, true, false, not, ◌||◌, List, [], ◌∷◌, ◌++◌, if◌then◌else◌,
  Option, none, some, ℤ, pos, Result, ok, err, ◌≡◌, refl, ◌⊎◌, inl, inr,
}
use whaleshell_driver.Base.Assoc.{get}
use whaleshell_driver.Defaults.{Defaults}
use whaleshell_driver.Docker.Exec.{label_role, succeeded, exit_code}
use whaleshell_driver.Docker.Lifecycle.{label_volume, ensure_ssh_daemon}
use whaleshell_driver.Engine.{
  Request, ExecOptions, Inspected, InspectedConfig, World, M, pure, fail, send, call, attempt,
  demand, make, try, inspect_container, ◌>>=◌, ◌>>◌,
}
use whaleshell_driver.Errors.{Error}
use whaleshell_driver.Runtime.{Driver}

unfoldable pub layout_script : Defaults → Str
layout_script d =
    let line =
      codes "printf '%s\\n' 'export PATH=\""
      ++ (d.guest_home ++ (codes "/.local/bin:" ++ (d.guest_bin ++ codes ":$PATH\"' > "))) in
    codes "mkdir -p "
    ++ (d.guest_home
        ++ (codes "/.local/bin "
            ++ (d.guest_bin
                ++ (codes " /etc/profile.d && "
                    ++ (line
                        ++ (d.guest_home
                            ++ (codes "/.profile && "
                                ++ (line
                                    ++ (d.guest_home
                                        ++ (codes "/.bashrc && "
                                            ++ (line
                                                ++ codes "/etc/profile.d/cauteum-path.sh")))))))))))

unfoldable pub layout_options : Driver → ExecOptions
unfolding layout_script
layout_options d = record {
  cmd = codes "/bin/bash" ∷ codes "-c" ∷ layout_script d.defaults ∷ [];
  env = codes "PATH=/usr/local/sbin:/usr/local/bin:/usr/sbin:/usr/bin:/sbin:/bin" ∷ [];
  user = [];
  attach_output = true;
  attach_stdin = false;
  tty = false;
  working_dir = codes "/";
  console_size = none;
}

-- After an exit status other than zero the container is inspected for the message.
unfoldable pub check_layout : Driver → Str → ℤ → M (Unit {0})
check_layout d id code =
    if succeeded (some code)
    then pure tt
    else attempt (Request.container_inspect id) (λ events. d.daemon.inspect events id)
      >> fail Error.layout_failed

unfoldable pub run_layout : Driver → Str → M (Unit {0})
unfolding layout_options
run_layout d id = do
  exec_id ← make d.daemon (Request.exec_create id (layout_options d)) Error.layout_failed
  demand d.daemon (Request.exec_attach exec_id) Error.layout_failed
  code ← exit_code d exec_id Error.layout_failed
  check_layout d id code

unfoldable pub layout_for : Driver → Str → Option InspectedConfig → M (Unit {0})
unfolding get
layout_for d id none = pure tt
layout_for d id (some cfg) =
    if get label_role cfg.labels == codes "proxy" || is_nil (get label_volume cfg.labels)
    then pure tt
    else run_layout d id

unfoldable pub ensure_guest_layout : Driver → Str → M (Unit {0})
ensure_guest_layout d id = do
  info ← inspect_container d.daemon id Error.layout_failed
  layout_for d id info.config

unfoldable pub diagnostics : Driver → Str → M (Unit {0})
diagnostics d id = send d.daemon (Request.container_logs id) >> pure tt

-- `fmt.Fprintf(os.Stderr, …)` and the diagnostics, where the step failed.
unfoldable pub report : Driver → Str → Option (Unit {0}) → M (Unit {0})
report d id (some _) = pure tt
report d id none = diagnostics d id

-- ErrSSHDisabled is no failure.
unfoldable pub ssh_outcome : Result Error (Unit {0}) × World → Result Error (Unit {0}) × World
ssh_outcome (err Error.ssh_disabled, w) = (ok tt, w)
ssh_outcome (r, w) = (r, w)

unfoldable pub start_ssh : Driver → Str → M (Unit {0})
unfolding ssh_outcome
start_ssh d id w = ssh_outcome (ensure_ssh_daemon d id w)

-- What follows the request, of which no failure is returned.
unfoldable pub after_start : Driver → Str → M (Unit {0})
after_start d id = do
  layout ← try (ensure_guest_layout d id)
  report d id layout
  ssh ← try (start_ssh d id)
  report d id ssh
  pure tt

unfoldable pub start : Driver → Str → M (Unit {0})
start d id = demand d.daemon (Request.container_start id) Error.start_failed >> after_start d id
