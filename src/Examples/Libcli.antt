-- ===== src/Examples/Libcli.antt =====
-- Runs of pkg/libcli, and of the gate's end of a shell.
use cliapp.Base.{◌∷◌, [], ◌++◌, true, none, some, List, String, Option, ◌≡◌, refl, arith, eq_iff}
use cliapp.Api.{live, CliApp}
use cliapp.Controller.Error.{external}
use cliapp.Controller.State.{Answer, ok}
use cliapp.Gate.Shell.{
  App, StdIn, Exec, Streamed, exited, Reply, fine, status_error, crashes, open_shell,
}
use cliapp.Libcli.Exec.{
  exit_code, RecvError, status_of, other, recv_ended, Event, winch, input, output, Terminal,
  exec_cli_app,
}
use cliapp.Libcli.Exec.Laws.{Delivers, recv_ended-open_shell}
use cliapp.Libcli.Exec.Loop.{KeepsTerminal, exec_cli_app-KeepsTerminal}
use cliapp.Libcli.Endpoints.{ServicePort, Service, Cluster, fetch_service_endpoints, tcp}
use cliapp.Libcli.Endpoints.Laws.{urls, fetch_service_endpoints-eq-urls}
use cliapp.Examples.Cluster.{ctr}

abbrev ctr_key : App
ctr_key = record { name = "ctr"; namespace = "app" }

abbrev asks_ctr : StdIn
asks_ctr = record { app = some ctr_key; input = "images" ∷ []; terminal_size = some (80, 24) }

abbrev all_live : String → String → Answer (Option CliApp)
all_live namespace name = ok (some (ctr live live))

abbrev exits : Exec → Streamed
exits e = exited 3

abbrev deliver : Reply → RecvError
deliver fine = RecvError.eof
deliver (status_error code text) = status_of code text (external text)
deliver (crashes why) = other (external why)

deliver-Delivers : Delivers deliver
deliver-Delivers code text = (external text, refl)

recv_ended-open_shell_example :
    recv_ended (deliver (open_shell all_live exits (ok asks_ctr)).reply) ≡ exit_code 3
recv_ended-open_shell_example =
    recv_ended-open_shell deliver all_live exits asks_ctr ctr_key (ctr live live) 3 deliver-Delivers
      refl (ground (arith, eq_iff "ctr" "")) (ground (arith, eq_iff "app" "")) refl refl

abbrev xterm : Terminal
xterm = record {
  stdin_is_terminal = true;
  stdout_is_terminal = true;
  size = λ n. some (80, 24);
  send_error = λ sent m. none;
  make_raw = none;
}

abbrev shell_events : List Event
shell_events = output (some "$ ") ∷ input (some "ls") ∷ winch ∷ input (some "exit") ∷ []

exec_cli_app-KeepsTerminal_example :
    KeepsTerminal xterm (exec_cli_app xterm "ctr" "app" [] shell_events)
exec_cli_app-KeepsTerminal_example = exec_cli_app-KeepsTerminal xterm "ctr" "app" [] shell_events

abbrev gate_port : ServicePort
gate_port = record { name = "session-gate"; port = 80; node_port = 30080 }

abbrev gate_service : List ServicePort → Service
gate_service ports = record {
  ports = ports;
  cluster_ip = "10.0.0.1";
  ingresses = record { hostname = ""; ip = "1.2.3.4" } ∷ [];
}

abbrev api_server : List ServicePort → Cluster
api_server ports = record {
  fetch = λ namespace service. ok (gate_service ports);
  list = ok (("192.168.0.1" ∷ "" ∷ []) ∷ []);
}

fetch_service_endpoints-eq-urls_example :
    fetch_service_endpoints
      (api_server (gate_port ∷ []))
      "cliapp-system"
      "cliapp-session-gate"
      "session-gate"
    ≡ ok (
        urls 80 ("" ∷ "1.2.3.4" ∷ [])
        ++ urls 30080 ("192.168.0.1" ∷ "" ∷ [])
        ++ tcp "10.0.0.1" 80 ∷ [])
fetch_service_endpoints-eq-urls_example =
    fetch_service_endpoints-eq-urls (api_server (gate_port ∷ [])) "cliapp-system"
      "cliapp-session-gate" "session-gate" (gate_service (gate_port ∷ [])) [] gate_port []
      (("192.168.0.1" ∷ "" ∷ []) ∷ []) refl refl refl tt (ground arith) (ground arith) refl
