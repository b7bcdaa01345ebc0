-- ===== src/Docker/Exec.antt =====
-- `Exec`, `rawExec` and the waits for readiness of internal/docker/docker.go. The copy of input and
-- output, and the resizes that a signal causes meanwhile, are not modelled.
pub mod Waiting
pub mod Environment
use whaleshell_driver.Base.{
  ℕ, zero, suc, Str, codes, ◌==◌, trim_space, contains, has_prefix, is_nil, eqb, Bool, true, false,
  not, ◌&&◌, ◌||◌, List, [], ◌∷◌, ◌++◌, if◌then◌else◌, Option, none, some, ℤ, pos, negsuc,
}
use whaleshell_driver.Base.Assoc.{get}
use whaleshell_driver.Base.Decimal.{show_ℤ}
use whaleshell_driver.Defaults.{Host}
use whaleshell_driver.Env.{merge_env}
use whaleshell_driver.Engine.{
  Request, ExecOptions, Inspected, InspectedConfig, Daemon, M, World, pure, fail, call, send,
  demand, require, try, make, inspect_container, or_fail, ◌>>=◌, ◌>>◌,
}
use whaleshell_driver.Errors.{Error}
use whaleshell_driver.Limits.{or_default}
use whaleshell_driver.Runtime.{Driver}
use whaleshell_driver.Spec.{ExecRequest}

unfoldable pub guest_term : Str → Str
unfolding contains has_prefix
guest_term name =
    if is_nil name || name == codes "dumb" || name == codes "unknown"
    then codes "xterm-256color"
    else if contains name (codes "kitty")
        || contains name (codes "ghostty")
        || contains name (codes "alacritty")
        || has_prefix name (codes "tmux")
        || has_prefix name (codes "screen")
    then codes "xterm-256color"
    else name

unfoldable pub ensure_tty_env : Host → List Str → List Str
unfolding guest_term trim_space merge_env
ensure_tty_env host base =
    let env =
      merge_env base
        ((codes "TERM=" ++ guest_term (trim_space (host.getenv (codes "TERM")))) ∷ []) in
    if is_nil (host.getenv (codes "COLORTERM"))
    then merge_env env (codes "COLORTERM=truecolor" ∷ [])
    else env

abbrev pub label_init : Str
label_init = codes "cauteum.init"

abbrev pub label_role : Str
label_role = codes "cauteum.role"

-- The arguments, wrapped where the sandbox has the hardened init.
unfoldable pub exec_argv : InspectedConfig → List Str → List Str
unfolding get
exec_argv cfg argv =
    if get label_init cfg.labels == codes "1"
    then codes "/cauteum-haven/cauteum-init" ∷ codes "--" ∷ argv
    else argv

unfoldable pub exec_workdir : Driver → InspectedConfig → Str → Str
unfolding get trim_space
exec_workdir d cfg work_dir =
    if get label_role cfg.labels == codes "proxy"
    then codes "/"
    else or_default (trim_space work_dir) d.defaults.guest_workspace

console_size : Driver → Bool → Option (ℕ × ℕ)
console_size d tty =
    if tty && (d.terminal.stdin_is_terminal || d.terminal.stdout_is_terminal)
    then d.terminal.size
    else none

unfoldable pub exec_options : Driver → InspectedConfig → ExecRequest → ExecOptions
unfolding exec_argv exec_workdir ensure_tty_env console_size merge_env
exec_options d cfg req = record {
  cmd = exec_argv cfg req.argv;
  env = ensure_tty_env d.host (merge_env cfg.env req.env);
  user = [];
  attach_output = true;
  attach_stdin = req.tty;
  tty = req.tty;
  working_dir = exec_workdir d cfg req.work_dir;
  console_size = console_size d req.tty;
}

unfoldable pub resize_once : Driver → Str → Option (ℕ × ℕ) → M (Option (Unit {0}))
resize_once d id none = pure none
resize_once d id (some size) = send d.daemon (Request.exec_resize id size)

unfoldable pub raw_terminal : Driver → Str → M (Option (Unit {0}))
raw_terminal d id = do
  require d.terminal.raw_mode Error.exec_raw_terminal
  resize_once d id d.terminal.size

unfoldable pub exit_code : Driver → Str → Error → M ℤ
exit_code d id e = call (Request.exec_inspect id) (λ events. d.daemon.exit_code events id) e

unfoldable pub exec : Driver → Str → ExecRequest → M ℤ
unfolding exec_options
exec d id req = do
  require (not (is_nil req.argv)) Error.exec_empty_argv
  info ← inspect_container d.daemon id Error.exec_inspect_container
  cfg ← or_fail Error.exec_no_config info.config
  exec_id ← make d.daemon (Request.exec_create id (exec_options d cfg req)) Error.exec_create_failed
  demand d.daemon (Request.exec_attach exec_id) Error.exec_attach_failed
  (if req.tty && d.terminal.stdin_is_terminal then raw_terminal d exec_id else pure none)
  exit_code d exec_id Error.exec_inspect_failed

root_options : List Str → Bool → ExecOptions
root_options argv attached = record {
  cmd = argv;
  env = [];
  user = codes "0";
  attach_output = attached;
  attach_stdin = false;
  tty = false;
  working_dir = codes "/";
  console_size = none;
}

unfoldable pub raw_exec : Driver → Str → List Str → M ℤ
unfolding root_options
raw_exec d id argv = do
  exec_id ← make d.daemon (Request.exec_create id (root_options argv true)) Error.exec_create_failed
  demand d.daemon (Request.exec_attach exec_id) Error.exec_attach_failed
  exit_code d exec_id Error.exec_inspect_failed

-- The command ran and its exit status is zero.
abbrev pub succeeded : Option ℤ → Bool
succeeded none = false
succeeded (some (pos n)) = eqb n 0
succeeded (some (negsuc n)) = false

-- A loop that probes until the probe succeeds, its deadline passes or the context ends.
unfoldable pub poll : Driver → M ℤ → M (Unit {0}) → ℕ → M (Unit {0})
poll d probe timed_out zero = timed_out
poll d probe timed_out (suc n) =
    let again = poll d probe timed_out n in
    try probe >>= λ code.
    if succeeded code then pure tt else if d.cancelled n then fail Error.cancelled else again

unfoldable pub request_of : List Str → ExecRequest
request_of argv = record { argv = argv; tty = false; env = []; work_dir = [] }

unfoldable pub after_logs : Driver → Str → Error → M (Unit {0})
after_logs d id e = do send d.daemon (Request.container_logs id); fail e

unfoldable pub wait_proxy_ca : Driver → Str → M (Unit {0})
unfolding request_of
wait_proxy_ca d id =
    poll d (exec d id (request_of (codes "test" ∷ codes "-s" ∷ codes "/cauteum/ca/ca.pem" ∷ [])))
      (after_logs d id Error.proxy_ca_timeout) d.rounds

unfoldable pub wait_proxy_listening : Driver → Str → ℤ → M (Unit {0})
unfolding request_of
wait_proxy_listening d id port =
    poll d
      (exec d id (
        request_of
          (codes "bash" ∷ codes "-c" ∷ (codes "exec 3<>/dev/tcp/127.0.0.1/" ++ show_ℤ port) ∷ [])))
      (after_logs d id Error.proxy_listen_timeout) d.rounds
