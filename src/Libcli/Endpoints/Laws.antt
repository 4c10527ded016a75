-- ===== src/Libcli/Endpoints/Laws.antt =====
-- The endpoints of a Service (pkg/libcli/api.go) in terms of its description.
use mathlib.Core.List.{append_assoc}
use cliapp.Base.{
  ℕ, ◌≡◌, ◌<◌, refl, ap, ◌∙◌, ◌≢◌, true, false, not, List, [], ◌∷◌, ◌++◌, String, arith, All, map,
  keep, is_blank, eq_iff, ◌==◌, if◌then◌else◌,
}
use cliapp.Controller.State.{ok}
use cliapp.Libcli.Endpoints.{
  ServicePort, Ingress, Service, Cluster, tcp, address, find_ports, ingress_addresses,
  node_addresses, service_addresses, fetch_service_endpoints,
}

-- The hosts that the load balancer and the nodes give, in order
abbrev pub ingress_hosts : List Ingress → List String
ingress_hosts [] = []
ingress_hosts (i ∷ is) = i.hostname ∷ i.ip ∷ ingress_hosts is

abbrev pub node_hosts : List (List String) → List String
node_hosts [] = []
node_hosts (hosts ∷ nodes) = hosts ++ node_hosts nodes

-- The hosts that are given at all, each with the port
pub urls : ℕ → List String → List String
urls port hosts = map (λ host. tcp host port) (keep (λ host. not (is_blank host)) hosts)

urls-cons :
    (port : ℕ) (host : String) (hosts : List String)
    → address port host ++ urls port hosts ≡ urls port (host ∷ hosts)
unfolding urls
urls-cons port host hosts = ground arith

ingress_addresses-eq-urls :
    (port : ℕ) (is : List Ingress) → ingress_addresses port is ≡ urls port (ingress_hosts is)
unfolding ingress_addresses urls
ingress_addresses-eq-urls port [] = refl
ingress_addresses-eq-urls port (i ∷ is) =
    ap (λ r. address port i.hostname ++ address port i.ip ++ r) (ingress_addresses-eq-urls port is)
    ∙ append_assoc (address port i.hostname) (address port i.ip) (urls port (ingress_hosts is))
    ∙ ap (λ r. address port i.hostname ++ r) (urls-cons port i.ip (ingress_hosts is))
    ∙ urls-cons port i.hostname (i.ip ∷ ingress_hosts is)

node_addresses-eq-urls :
    (port : ℕ) (nodes : List (List String))
    → node_addresses port nodes ≡ urls port (node_hosts nodes)
unfolding node_addresses urls
node_addresses-eq-urls port [] = refl
node_addresses-eq-urls port ([] ∷ nodes) = node_addresses-eq-urls port nodes
node_addresses-eq-urls port ((host ∷ hosts) ∷ nodes) =
    ap (λ r. address port host ++ r) (node_addresses-eq-urls port (hosts ∷ nodes))
    ∙ urls-cons port host (hosts ++ node_hosts nodes)

-- No port of the list has the name.
abbrev pub IsAbsent : String → List ServicePort → Type 0
IsAbsent name ports = All (λ p. p.name ≢ name) ports

find_ports-absent :
    (name : String) (found : ℕ × ℕ) (ports : List ServicePort)
    → IsAbsent name ports
    → find_ports name found ports ≡ found
unfolding find_ports
find_ports-absent name found [] h = refl
find_ports-absent name found (p ∷ ps) (h, hs) =
    let no : p.name == name ≡ false = ground (arith, eq_iff p.name name) in
    ap (λ b. find_ports name (if b then (p.port, p.node_port) else found) ps) no
    ∙ find_ports-absent name found ps hs

find_ports-last :
    (name : String) (found : ℕ × ℕ) (before : List ServicePort) (p : ServicePort)
    (after : List ServicePort)
    → p.name ≡ name
    → IsAbsent name after
    → find_ports name found (before ++ p ∷ after) ≡ (p.port, p.node_port)
unfolding find_ports
find_ports-last name found [] p after e h =
    let yes : p.name == name ≡ true = ground (arith, eq_iff p.name name) in
    ap (λ b. find_ports name (if b then (p.port, p.node_port) else found) after) yes
    ∙ find_ports-absent name (p.port, p.node_port) after h
find_ports-last name found (q ∷ qs) p after e h =
    find_ports-last name (if q.name == name then (q.port, q.node_port) else found) qs p after e h

-- Where the Service is there, the last port of the name has a number and a number on the nodes, and
-- the nodes can be listed, the endpoints are the hosts of the load balancer at the port, the nodes'
-- addresses at the port of the nodes, and the cluster address at the port; hosts that are blank are
-- left out.
pub fetch_service_endpoints-eq-urls :
    (c : Cluster) (namespace service name : String) (svc : Service) (before : List ServicePort)
    (p : ServicePort) (after : List ServicePort) (nodes : List (List String))
    → c.fetch namespace service ≡ ok svc
    → svc.ports ≡ before ++ p ∷ after
    → p.name ≡ name
    → IsAbsent name after
    → 0 < p.port
    → 0 < p.node_port
    → c.list ≡ ok nodes
    → fetch_service_endpoints c namespace service name
      ≡ ok (
          urls p.port (ingress_hosts svc.ingresses)
          ++ urls p.node_port (node_hosts nodes)
          ++ tcp svc.cluster_ip p.port ∷ [])
unfolding fetch_service_endpoints service_addresses
fetch_service_endpoints-eq-urls c namespace service name svc before p after nodes f ports e h n m
      l =
    let found : find_ports name (0, 0) svc.ports ≡ (p.port, p.node_port) =
      ap (find_ports name (0, 0)) ports ∙ find_ports-last name (0, 0) before p after e h in
    ground (
      arith,
      ingress_addresses-eq-urls p.port svc.ingresses,
      node_addresses-eq-urls p.node_port nodes,
    )

-- Where the Service has no port of the name, the one endpoint is the cluster address with port 0.
fetch_service_endpoints-absent :
    (c : Cluster) (namespace service name : String) (svc : Service)
    → c.fetch namespace service ≡ ok svc
    → IsAbsent name svc.ports
    → fetch_service_endpoints c namespace service name ≡ ok (tcp svc.cluster_ip 0 ∷ [])
unfolding fetch_service_endpoints service_addresses
fetch_service_endpoints-absent c namespace service name svc f h =
    let found : find_ports name (0, 0) svc.ports ≡ (0, 0) =
      find_ports-absent name (0, 0) svc.ports h in
    ground arith
