-- ===== src/Controller/Live/Progress.antt =====
-- makeAppLive (controllers/cliapp_live.go) where the services help: a Pod of the app is there and ready.
use cliapp.Base.{
  ℕ, suc, ◌≡◌, ◌≢◌, refl, sym, subst, ◌∙◌, true, none, some, List, ◌∷◌, String, arith, eq_iff, keep,
  if◌then◌else◌,
}
use cliapp.Api.{
  Phase, rest, recovering, building, live, waiting_for_sessions, shutting_down, other, CliApp,
  with_pod_name,
}
use cliapp.Kube.{Pod}
use cliapp.Utils.{is_pod_ready}
use cliapp.Controller.State.{
  Env, pure, State, History, returns, panics, list_pods, ok, CliAppReconciler,
}
use cliapp.Controller.Transit.{transit_phase_to}
use cliapp.Controller.Claim.{claimed, to_recycle, first_of_list}
use cliapp.Controller.Claim.Recycling.{is_current, claimed-eq-first}
use cliapp.Controller.Claim.Kept.{deletions, claim_pods_listed}
use cliapp.Controller.Rest.{nothing, again}
use cliapp.Controller.Rest.Progress.{Saves, transit-Saved, transit_live-Saved, then_reply}
use cliapp.Controller.Live.{
  recover, go_live, recovering_claimed, finish_build, live_from_building, live_dispatch,
  make_app_live,
}

-- The services help an app on its way to Live: its status is saved, and of its Pods the first that is
-- not being deleted and has its spec is ready, and has a name.
pub record IsServing (env : Env) (app : CliApp) (pod : Pod) : Type 0 where
  pub pods : List Pod
  pub saves : (h : History) (a : CliApp) → env.update_status_answer h a ≡ ok a
  pub listed : (h : History) → env.list_pods_answer h app.namespace app.name ≡ ok pods
  pub first : first_of_list (keep (is_current (env.encode_spec app.spec)) pods) ≡ some pod
  pub ready : is_pod_ready pod ≡ true
  pub named : pod.name ≢ ""

-- How many transitions a phase is away from Live.
abbrev pub distance : Phase → ℕ
distance live = 0
distance recovering = 1
distance p = 2

-- One nearer to Live, with the name of the Pod in the status of an app that is there.
abbrev pub IsNearer : Pod → Phase → CliApp → Type 0
IsNearer pod p app =
    (suc (distance app.status.phase) ≡ distance p)
    × (app.status.phase ≡ live → app.status.pod_name ≡ pod.name)

-- The same spec, and one transition further.
abbrev pub IsOn : CliApp → Pod → CliApp → Type 0
IsOn before pod app = (app.spec ≡ before.spec) × IsNearer pod before.status.phase app

module _ (env : Env) (r : CliAppReconciler) (pod : Pod) where
  recover-Saves :
      (s : State)
      → IsServing env s.app pod
      → distance s.app.status.phase ≡ 2
      → Saves (IsOn s.app pod) (recover env s)
  unfolding recover
  recover-Saves s h d =
      then_reply (IsOn s.app pod) (transit_phase_to env recovering) (λ _. again) s
        (transit-Saved env h.saves (IsOn s.app pod) recovering s (ground arith) refl)

  go_live-Saves :
      (before : CliApp) (s : State)
      → ((h : History) (a : CliApp) → env.update_status_answer h a ≡ ok a)
      → pod.name ≢ ""
      → s.app.spec ≡ before.spec
      → s.app.spec.image ≢ ""
      → before.status.phase ≡ recovering
      → Saves (IsOn before pod) (go_live env pod s)
  unfolding go_live
  go_live-Saves before s saves n e i p =
      let held : State = record s { app = with_pod_name pod.name s.app } in
      then_reply (IsOn before pod) (transit_phase_to env live) (λ _. nothing) held
        (transit_live-Saved env saves (IsOn before pod) live held (ground arith) n i)

  finish_build-Saves :
      (s : State)
      → IsServing env s.app pod
      → s.app.status.phase ≡ building
      → Saves (IsOn s.app pod) (finish_build env s)
  unfolding finish_build
  finish_build-Saves s h p =
      then_reply (IsOn s.app pod) (transit_phase_to env recovering)
        (λ e. elim e [ none ↦ again | some _ ↦ nothing ]) s
        (transit-Saved env h.saves (IsOn s.app pod) recovering s (ground arith) refl)

  recovering-Saves :
      (s : State)
      → IsServing env s.app pod
      → s.app.spec.image ≢ ""
      → s.app.status.phase ≡ recovering
      → Saves (IsOn s.app pod) (live_dispatch env r recovering s)
  unfolding live_dispatch recovering_claimed
  recovering-Saves s h i p =
      let dump = env.encode_spec s.app.spec in
      let hash = env.compute_hash s.app.spec in
      let listed = claim_pods_listed env dump hash s h.pods (h.listed s.log) in
      let taken : claimed dump hash h.pods ≡ some pod =
        claimed-eq-first dump hash h.pods ∙ h.first in
      let named : State = record s {
        log =
            deletions s.app.namespace (to_recycle dump hash h.pods)
              (list_pods s.app.namespace s.app.name ∷ s.log);
      } in
      subst
        (λ o. Saves (IsOn s.app pod) (elim o [
          | returns a t ↦ recovering_claimed env r dump hash a t
          | panics w t ↦ panics w t
        ]))
        (sym listed)
        (subst (λ c. Saves (IsOn s.app pod) (recovering_claimed env r dump hash (ok c) named))
          (sym taken)
          (subst
            (λ b.
              Saves (IsOn s.app pod) ((if b then go_live env pod else pure (nothing, none)) named))
            (sym h.ready) (go_live-Saves s.app named h.saves h.named refl i p)))

  live_dispatch-Saves :
      (p : Phase) (s : State)
      → s.app.status.phase ≡ p
      → IsServing env s.app pod
      → s.app.spec.image ≢ ""
      → p ≢ live
      → ((text : String) → p ≢ other text)
      → Saves (IsOn s.app pod) (live_dispatch env r p s)
  unfolding live_dispatch live_from_building
  live_dispatch-Saves Phase.unset s e h i l k = recover-Saves s h (ground arith)
  live_dispatch-Saves shutting_down s e h i l k = recover-Saves s h (ground arith)
  live_dispatch-Saves waiting_for_sessions s e h i l k = recover-Saves s h (ground arith)
  live_dispatch-Saves rest s e h i l k = recover-Saves s h (ground arith)
  live_dispatch-Saves live s e h i l k = absurd (l refl)
  live_dispatch-Saves recovering s e h i l k = recovering-Saves s h i e
  live_dispatch-Saves building s e h i l k =
      ground (arith, finish_build-Saves s h e, eq_iff s.app.spec.image "")
  live_dispatch-Saves (other text) s e h i l k = absurd (k text refl)

  -- Where the services help, makeAppLive brings an app with an image that is not live nearer to it.
  pub make_app_live-Saves :
      (s : State)
      → IsServing env s.app pod
      → s.app.spec.target_phase ≡ live
      → s.app.spec.image ≢ ""
      → s.app.status.phase ≢ live
      → ((text : String) → s.app.status.phase ≢ other text)
      → Saves (IsOn s.app pod) (make_app_live env r s)
  unfolding make_app_live
  make_app_live-Saves s h t i l k =
      ground
        (arith, live_dispatch-Saves s.app.status.phase s refl h i l k, eq_iff s.app.spec.image "")
