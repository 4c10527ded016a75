-- ===== src/Controller/Passes/Settles.antt =====
-- Passes of controllers/ with the target Rest.
use cliapp.Base.{
  ℕ, suc, ◌≤◌, ◌<◌, ◌≡◌, ◌≢◌, refl, sym, ap, subst, ◌∙◌, ◌⊎◌, inl, inr, false, none, List, [], ◌∷◌,
  String, arith, All,
}
use cliapp.Api.{Phase, rest, other, CliApp, core}
use cliapp.Controller.State.{Env, History, ok, Outcome, returns, panics, after, CliAppReconciler}
use cliapp.Controller.Env.{Echoes}
use cliapp.Controller.Phases.{height, Edge-height, Edge-known}
use cliapp.Controller.Validate.{validate_app, IsAcceptable, validate_app_iff}
use cliapp.Controller.Rest.{Reply}
use cliapp.Controller.Sends.{IsNext}
use cliapp.Controller.Rest.Progress.{IsHelpful, IsBelow, Saves}
use cliapp.Controller.Reconcile.{with_error, reconcile_app}
use cliapp.Controller.Passes.Steps.{pass-IsNext}
use cliapp.Controller.Reconcile.Progress.{reconcile_app-Saves}
use cliapp.Controller.Passes.{latest, or_before, Stored, begin, pass, passes}

-- The spec and the name as they are, and the phase, or one edge further.
abbrev IsOnward : CliApp → CliApp → Type 0
IsOnward app = IsNext (λ c. c ≡ core app) rest app.status.phase

-- An app that is to rest and stay installed: it is valid, and in a known phase.
pub record IsResting (app : CliApp) : Type 0 where
  pub target : app.spec.target_phase ≡ rest
  pub installed : app.spec.uninstall_unless_live ≡ false
  pub known : (text : String) → app.status.phase ≢ other text
  pub valid : IsAcceptable app

IsNext-IsResting : (a b : CliApp) → IsOnward a b → IsResting a → IsResting b
IsNext-IsResting a b (s, m) g = record {
  target = ap (λ x. x.spec.target_phase) s ∙ g.target;
  installed = ap (λ x. x.spec.uninstall_unless_live) s ∙ g.installed;
  known = λ text. elim m [ inl e ↦ (λ x. g.known text (sym e ∙ x)) | inr e ↦ Edge-known e text ];
  valid = record {
    source =
        subst (λ x. (x.spec.image ≢ "") ⊎ ((x.spec.dockerfile ≢ "") ⊎ (x.spec.fork ≢ none))) (sym s)
          g.valid.source;
    target = inl (ap (λ x. x.spec.target_phase) s ∙ g.target);
    distro = ground (arith, g.valid.distro);
    shell = ground (arith, g.valid.shell);
  };
}

IsNext-height : (a b : CliApp) → IsOnward a b → height b.status.phase ≤ height a.status.phase
IsNext-height a b (s, inl e) = ground arith
IsNext-height a b (s, inr e) = omega (arith, Edge-height e)

module _ (env : Env) (r : CliAppReconciler) where
  pub latest-Saves :
      (P : CliApp → Type 0) (app : CliApp) (o : Outcome Reply)
      → ((h : History) (a : CliApp) → env.update_status_answer h a ≡ ok a)
      → Saves P o
      → P (latest env app (after o).log)
  unfolding latest
  latest-Saves P app (returns (v, x) t) saves (a, b, c) =
      let (h, e) = c in
      subst (λ l. P (latest env app l)) (sym e)
        (subst (λ a. P (or_before a (latest env app h))) (sym (saves h t.app)) b)
  latest-Saves P app (panics w t) saves g = absurd g

  pass-nearer :
      (s : Stored)
      → IsResting s.app
      → IsHelpful env r s.app
      → 0 < height s.app.status.phase
      → height (pass env r s).app.status.phase < height s.app.status.phase
  unfolding pass
  pass-nearer s g h k =
      latest-Saves (IsBelow (height s.app.status.phase)) s.app (reconcile_app env r (begin s))
        h.saves
        (reconcile_app-Saves env r (begin s) (acceptable g.valid) h refl g.target g.installed k)
    where
      acceptable : IsAcceptable s.app → validate_app (with_error "" s.app) ≡ none
      acceptable a =
          (validate_app_iff (with_error "" s.app)).1
            (record { source = a.source; target = a.target; distro = a.distro; shell = a.shell })

-- `n` of the passes are helped by their services.
abbrev pub AreHelped : CliAppReconciler → ℕ → List Env → Stored → Type 0
AreHelped r n [] s = n ≡ 0
AreHelped r n (env ∷ envs) s =
    (IsHelpful env r s.app × ((m : ℕ) × (n ≡ suc m) × AreHelped r m envs (pass env r s)))
    ⊎ AreHelped r n envs (pass env r s)

height_zero : (p : Phase) → ((text : String) → p ≢ other text) → height p ≤ 0 → p ≡ rest
height_zero rest k h = refl
height_zero (other text) k h = absurd (k text refl)
height_zero _ k h = absurd (omega arith)

-- An app that is to rest comes to Rest, where updates are answered with what was sent: whatever
-- calls fail in between, passes of which as many are helped by their services as the phase is away
-- from Rest, three at most, leave the stored app at Rest. A pass is helped if its status updates
-- are saved, its first list call finds no Pods of the app, and the app, if it waits for sessions, has
-- been idle for long enough. The app is valid, in a known phase, and not to be uninstalled.
pub passes-rest :
    (r : CliAppReconciler) (envs : List Env) (s : Stored) (n : ℕ)
    → All Echoes envs
    → IsResting s.app
    → AreHelped r n envs s
    → height s.app.status.phase ≤ n
    → (passes envs r s).app.status.phase ≡ rest
unfolding passes
passes-rest r [] s n e g f h = height_zero s.app.status.phase g.known (omega arith)
passes-rest r (env ∷ envs) s n (e, es) g (inr f) h =
    let next = pass-IsNext e r s g.target in
    passes-rest r envs (pass env r s) n es (IsNext-IsResting s.app _ next g) f
      (omega (arith, IsNext-height s.app (pass env r s).app next))
passes-rest r (env ∷ envs) s n (e, es) g (inl (helpful, (m, k, f))) h =
    let next = pass-IsNext e r s g.target in
    passes-rest r envs (pass env r s) m es (IsNext-IsResting s.app _ next g) f
      (ground (arith, pass-nearer env r s g helpful, IsNext-height s.app (pass env r s).app next))
