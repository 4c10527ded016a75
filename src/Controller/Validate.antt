-- ===== src/Controller/Validate.antt =====
-- validateApp, ValidateDistro and ValidateShell of controllers/cliapp_common.go.
use cliapp.Base.{
  ◌≡◌, ◌⊎◌, ◌≢◌, ◌↔◌, ◌&&◌, Option, none, some, is_blank, is_none, if◌then◌else◌, arith, eq_iff,
}
use cliapp.Api.{Phase, rest, live, Distro, alpine, ubuntu, Shell, bash, zsh, CliApp}
use cliapp.Controller.Error.{
  Error, no_source, no_target_phase, bad_target_phase, bad_distro, bad_shell,
}

unfoldable pub validate_distro : Distro → Option Error
validate_distro alpine = none
validate_distro ubuntu = none
validate_distro d = some bad_distro

unfoldable pub validate_shell : Shell → Option Error
validate_shell zsh = none
validate_shell bash = none
validate_shell s = some bad_shell

-- The tests of the target phase, in their order.
validate_target : Phase → Option Error
validate_target Phase.unset = some no_target_phase
validate_target rest = none
validate_target live = none
validate_target p = some bad_target_phase

-- `len(d) > 0` guards the check of the distro, and likewise of the shell.
validate_set_distro : Distro → Option Error
unfolding validate_distro
validate_set_distro Distro.unset = none
validate_set_distro d = validate_distro d

validate_set_shell : Shell → Option Error
unfolding validate_shell
validate_set_shell Shell.unset = none
validate_set_shell s = validate_shell s

abbrev or_else : Option Error → Option Error → Option Error
or_else none e = e
or_else (some d) e = some d

unfoldable pub validate_app : CliApp → Option Error
unfolding validate_target validate_set_distro validate_set_shell
validate_app app =
    if is_blank app.spec.image && is_blank app.spec.dockerfile && is_none app.spec.fork
    then some no_source
    else or_else (validate_target app.spec.target_phase)
        (or_else (validate_set_distro app.spec.distro) (validate_set_shell app.spec.shell))

-- What the program promises of an app that it accepts.
pub record IsAcceptable (app : CliApp) : Type 0 where
  pub source : (app.spec.image ≢ "") ⊎ ((app.spec.dockerfile ≢ "") ⊎ (app.spec.fork ≢ none))
  pub target : (app.spec.target_phase ≡ rest) ⊎ (app.spec.target_phase ≡ live)
  pub distro :
      (app.spec.distro ≡ Distro.unset) ⊎ ((app.spec.distro ≡ alpine) ⊎ (app.spec.distro ≡ ubuntu))
  pub shell : (app.spec.shell ≡ Shell.unset) ⊎ ((app.spec.shell ≡ bash) ⊎ (app.spec.shell ≡ zsh))

-- An app passes validation exactly if it names an image, a dockerfile or a fork, its target is
-- Rest or Live, and its distro and its shell are unset or among the supported ones.
pub validate_app_iff : (app : CliApp) → (validate_app app ≡ none) ↔ IsAcceptable app
unfolding validate_app
validate_app_iff app = (
  (λ h. ground (arith, eq_iff app.spec.image "", eq_iff app.spec.dockerfile "")),
  (λ h. ground (arith, eq_iff app.spec.image "", eq_iff app.spec.dockerfile "")),
)
