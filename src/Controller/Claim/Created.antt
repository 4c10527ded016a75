-- ===== src/Controller/Claim/Created.antt =====
-- Whether claimPods (controllers/cliapp_live.go) takes the Pods that startApp
-- (controllers/cliapp_workload.go) creates.
use cliapp.Base.{
  ◌≡◌, ◌∙◌, sym, subst, Bool, true, false, List, ◌++◌, keep, none, some, [], ◌∷◌, String, is_blank,
  lookup, insert, lookup-insert, eq_iff, arith,
}
use cliapp.Api.{CliApp}
use cliapp.Kube.{Pod}
use cliapp.Controller.State.{Env, State, after, CliAppReconciler}
use cliapp.Controller.Keeps.{Onto, Onto-mono}
use cliapp.Controller.Workload.Config.{app_label}
use cliapp.Controller.Start.{start_app, annotate, anno_key_spec_hash, anno_key_spec_dump}
use cliapp.Controller.Start.Pods.{IsMadeFor, Creates, Creates-mono, start_app-IsMadeFor}
use cliapp.Controller.Claim.{annotation, is_outdated, claimed, to_recycle, first_of_list}
use cliapp.Controller.Claim.Recycling.{claimed-eq-first, to_recycle-eq, is_current}

-- The first of a list that is looked for, where none stands before it.
first-keep :
    (is : Pod → Bool) (before : List Pod) (pod : Pod) (further : List Pod)
    → (is pod ≡ true)
    → first_of_list (keep is before) ≡ none
    → first_of_list (keep is (before ++ pod ∷ further)) ≡ some pod
first-keep is [] pod further h e = ground (arith, h)
first-keep is (x ∷ before) pod further h e = ground (arith, h, first-keep is before pod further h)

module _ (dump hash : String) (pod : Pod) (b : is_blank dump ≡ false) where
  annotate-dump : annotation anno_key_spec_dump (annotate dump hash pod) ≡ dump
  unfolding annotate
  annotate-dump = ground (
    arith,
    lookup-insert anno_key_spec_hash anno_key_spec_dump hash
        (insert anno_key_spec_dump dump pod.annotations),
    lookup-insert anno_key_spec_dump anno_key_spec_dump dump pod.annotations,
  )

  annotate-hash : annotation anno_key_spec_hash (annotate dump hash pod) ≡ hash
  unfolding annotate
  annotate-hash = ground (
    arith,
    lookup-insert anno_key_spec_hash anno_key_spec_hash hash
        (insert anno_key_spec_dump dump pod.annotations),
  )

  annotate-is_outdated : is_outdated hash (annotate dump hash pod) ≡ false
  unfolding annotate insert
  annotate-is_outdated = ground (arith, annotate-hash, annotate-dump, b, eq_iff hash hash)

  annotate-claimed :
      (before further : List Pod)
      → pod.deletion_timestamp ≡ none
      → claimed dump hash before ≡ none
      → claimed dump hash (before ++ annotate dump hash pod ∷ further)
        ≡ some (annotate dump hash pod)
  unfolding annotate
  annotate-claimed before further k e =
      claimed-eq-first dump hash (before ++ annotate dump hash pod ∷ further)
      ∙ first-keep (is_current dump) before (annotate dump hash pod) further (current k)
          (sym (claimed-eq-first dump hash before) ∙ e)
    where
      current : pod.deletion_timestamp ≡ none → is_current dump (annotate dump hash pod) ≡ true
      current k = ground (arith, k, annotate-dump, eq_iff dump dump)

  annotate-to_recycle :
      pod.deletion_timestamp ≡ none → to_recycle dump hash (annotate dump hash pod ∷ []) ≡ []
  unfolding annotate
  annotate-to_recycle k =
      rw (to_recycle-eq dump hash (annotate dump hash pod ∷ []))
        (ground (arith, k, annotate-dump, annotate-is_outdated, eq_iff dump dump))

-- A Pod in the app's namespace with the app's label, which claimPods takes for the app's spec wherever
-- it takes none of those before it, and which it does not delete where it is the only Pod.
pub record IsClaimable (app : CliApp) (dump hash : String) (pod : Pod) : Type 0 where
  pub labelled : lookup app_label pod.labels ≡ some app.name
  pub placed : pod.namespace ≡ app.namespace
  pub taken :
      (before further : List Pod)
      → claimed dump hash before ≡ none
      → claimed dump hash (before ++ pod ∷ further) ≡ some pod
  pub spared : to_recycle dump hash (pod ∷ []) ≡ []

made-IsClaimable :
    (app : CliApp) (dump hash : String) (pod : Pod)
    → is_blank dump ≡ false
    → IsMadeFor app dump hash pod
    → IsClaimable app dump hash pod
unfolding annotate
made-IsClaimable app dump hash pod b m = subst (IsClaimable app dump hash) (sym m.marked) (record {
  labelled = m.own.named;
  placed = m.own.placed;
  taken = λ before further e. annotate-claimed dump hash m.unmarked b before further m.own.kept e;
  spared = annotate-to_recycle dump hash m.unmarked b m.own.kept;
})

-- Where the dump of the spec is not blank, each Pod that startApp creates is in the app's namespace and
-- carries the app's name in its label. In any list of Pods of which claimPods, for the same dump and
-- hash, takes none of those before it, it is the one that is taken; and where it is the only Pod,
-- claimPods deletes nothing.
pub start_app-IsClaimable :
    (env : Env) (r : CliAppReconciler) (dump hash : String) (s : State)
    → is_blank dump ≡ false
    → Onto (Creates (IsClaimable s.app dump hash)) s.log (after (start_app env r dump hash s)).log
start_app-IsClaimable env r dump hash s b =
    Onto-mono
      (Creates-mono (IsMadeFor s.app dump hash) (IsClaimable s.app dump hash)
        (λ pod m. made-IsClaimable s.app dump hash pod b m))
      (start_app-IsMadeFor env dump hash r s)
