-- ===== src/Libcli/Endpoints.antt =====
-- FetchGateEndpoints (pkg/libcli/api.go): the addresses at which the gate's Service is reached. Ports
-- are int32 in the API; the API server admits those from 0 to 65535 only.
pub mod Laws
use cliapp.Base.{
  ℕ, ltb, Bool, true, false, List, [], ◌∷◌, ◌++◌, String, ◌==◌, is_blank, if◌then◌else◌,
}
use cliapp.Base.Text.Decimal.{itoa}
use cliapp.Controller.State.{Answer, ok, err}
use cliapp.Controller.Error.{Error, external, message}
use Prim.Native.String

pub record ServicePort : Type 0 where
  pub name : String
  pub port : ℕ
  pub node_port : ℕ

pub record Ingress : Type 0 where
  pub hostname : String
  pub ip : String

pub record Service : Type 0 where
  pub ports : List ServicePort
  pub cluster_ip : String
  pub ingresses : List Ingress

-- A node is the list of its addresses. `fetch` and `list` are what the API server answers.
pub record Cluster : Type 0 where
  pub fetch : String → String → Answer Service
  pub list : Answer (List (List String))

-- `tcp://%s:%d`
abbrev pub tcp : String → ℕ → String
tcp host port = String.◌++◌ "tcp://" (String.◌++◌ host (String.◌++◌ ":" (itoa port)))

-- The loop over the ports: the last one with the name counts.
pub find_ports : String → ℕ × ℕ → List ServicePort → ℕ × ℕ
find_ports name found [] = found
find_ports name found (p ∷ ps) =
    find_ports name (if p.name == name then (p.port, p.node_port) else found) ps

abbrev pub address : ℕ → String → List String
address port host = if is_blank host then [] else tcp host port ∷ []

pub ingress_addresses : ℕ → List Ingress → List String
ingress_addresses port [] = []
ingress_addresses port (i ∷ is) =
    address port i.hostname ++ address port i.ip ++ ingress_addresses port is

pub node_addresses : ℕ → List (List String) → List String
node_addresses port [] = []
node_addresses port ([] ∷ nodes) = node_addresses port nodes
node_addresses port ((host ∷ hosts) ∷ nodes) =
    address port host ++ node_addresses port (hosts ∷ nodes)

cannot_fetch_text : String → String → Error → String
cannot_fetch_text namespace service e =
    String.◌++◌ "can't fetch endpoint from Service \"" (
      String.◌++◌ namespace
        (String.◌++◌ "/" (String.◌++◌ service (String.◌++◌ "\": " (message e)))))

service_addresses : Cluster → ℕ × ℕ → Service → Answer (List String)
unfolding ingress_addresses node_addresses
service_addresses c (port, node_port) svc =
    let balanced = if ltb 0 port then ingress_addresses port svc.ingresses else [] in
    let own = tcp svc.cluster_ip port ∷ [] in
    if ltb 0 node_port
    then elim c.list [
      | err e ↦ err (
          external (String.◌++◌ "can't list node while enumerating Service NodePort: " (message e)))
      | ok nodes ↦ ok (balanced ++ node_addresses node_port nodes ++ own)
    ]
    else ok (balanced ++ own)

pub fetch_service_endpoints : Cluster → String → String → String → Answer (List String)
unfolding service_addresses find_ports cannot_fetch_text
fetch_service_endpoints c namespace service port = elim (c.fetch namespace service) [
  | err e ↦ err (external (cannot_fetch_text namespace service e))
  | ok svc ↦ service_addresses c (find_ports port (0, 0) svc.ports) svc
]

pub fetch_gate_endpoints : Cluster → Answer (List String)
unfolding fetch_service_endpoints
fetch_gate_endpoints c =
    fetch_service_endpoints c "cliapp-system" "cliapp-session-gate" "session-gate"
