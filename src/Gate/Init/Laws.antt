-- ===== src/Gate/Init/Laws.antt =====
-- What holds when the gate (cmd/session-gate/session-gate.go, pkg/gate/gate.go) begins to serve.
use cliapp.Base.{◌≡◌, refl, sym, ap, subst, ◌∙◌, ◌⊎◌, inl, inr, Option, none, some, [], arith}
use cliapp.Controller.Error.{Error}
use cliapp.Controller.State.{Answer, ok, err}
use cliapp.Gate.Start.{AppClient}
use cliapp.Gate.Init.{
  Host, TerminalGate, Started, panics, ready, unless_failed, new_gate, init, prepare_gate, main,
}

unless_failed-ready :
    {A : Type 0} (x : Option Error) (next : Started A) (a : A)
    → unless_failed x next ≡ ready a
    → (x ≡ none) × (next ≡ ready a)
unless_failed-ready none next a h = (refl, h)
unless_failed-ready (some e) next a h = ground arith

-- The client of a gate that is ready
abbrev pub IsClientOf : Host → Option AppClient → Type 0
IsClientOf host client =
    ((e : Error) × (host.app_client ≡ err e) × (client ≡ none))
    ⊎ ((c : AppClient) × (host.app_client ≡ ok c) × (client ≡ some c) × (host.list_error ≡ none))

clients-ready :
    (host : Host) (a : Answer AppClient) (client : Option AppClient)
    → host.app_client ≡ a
    → elim a [ err e ↦ ready none | ok c ↦ unless_failed host.list_error (ready (some c)) ]
      ≡ ready client
    → IsClientOf host client
clients-ready host (err e) client q h = inl (e, q, ground arith)
clients-ready host (ok c) client q h =
    let (l, g) = unless_failed-ready host.list_error (ready (some c)) client h in
    inr (c, q, ground arith, l)

abbrev pub IsReadyAs : Host → Option AppClient → Type 0
IsReadyAs host client =
    (host.scheme_error ≡ none)
    × (host.config_error ≡ none)
    × (host.clientset_error ≡ none)
    × IsClientOf host client

init-ready :
    (host : Host) (client : Option AppClient) → init host ≡ ready client → IsReadyAs host client
unfolding init
init-ready host client h =
    let (a, h) = unless_failed-ready host.scheme_error _ client h in
    let (b, h) = unless_failed-ready host.config_error _ client h in
    let (c, h) = unless_failed-ready host.clientset_error _ client h in
    (a, b, c, clients-ready host host.app_client client refl h)

new_gate-ready :
    (host : Host) (x : Started (Option AppClient)) (gate : TerminalGate)
    → init host ≡ x
    → new_gate x ≡ ready gate
    → IsReadyAs host gate.app_client × (gate.session_map ≡ [])
new_gate-ready host (panics why) gate q h = ground arith
new_gate-ready host (ready client) gate q h =
    let e : record { app_client = client; session_map = [] } ≡ gate = ground arith in
    (
      subst (IsReadyAs host) (ap (λ g. g.app_client) e) (init-ready host client q),
      sym (ap (λ g. g.session_map) e),
    )

-- A gate that begins to serve has no sessions; the scheme, the configuration and the clientset were
-- made, and the machine listens. Its client for apps has listed the apps of the cluster, or could not
-- be made and is missing.
main-ready :
    (host : Host) (gate : TerminalGate)
    → main host ≡ ready gate
    → (host.listen_error ≡ none) × IsReadyAs host gate.app_client × (gate.session_map ≡ [])
unfolding main prepare_gate
main-ready host gate h = begun (prepare_gate host) refl h
  where
    begun :
        (x : Started TerminalGate)
        → prepare_gate host ≡ x
        → elim x [ panics why ↦ panics why | ready g ↦ unless_failed host.listen_error (ready g) ]
          ≡ ready gate
        → (host.listen_error ≡ none) × IsReadyAs host gate.app_client × (gate.session_map ≡ [])
    begun (panics why) q k = ground arith
    begun (ready g) q k =
        let (l, k) = unless_failed-ready host.listen_error (ready g) gate k in
        let e : prepare_gate host ≡ ready gate = q ∙ k in
        let (c, m) = new_gate-ready host (init host) gate refl e in (l, c, m)
