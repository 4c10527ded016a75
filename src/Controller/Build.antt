-- ===== src/Controller/Build.antt =====
-- controllers/cliapp_build.go: the builds of images, by the app's name.
pub mod Cancel
pub mod Tests
pub mod Shared
use Prim.Native.String.{◌++◌}
use cliapp.Base.{
  true, false, ◌||◌, Option, none, some, List, [], ◌∷◌, String, ◌==◌, if◌then◌else◌, lookup, insert,
  delete,
}
use cliapp.Api.{CliApp}
use cliapp.Controller.Error.{Error, under_build, invalid_dockerfile}
use cliapp.Controller.State.{
  BuildContext, Env, M, returns, panics, start_build, cancel_build, Answer, ok, err,
}
use cliapp.Controller.Calls.{logged}

-- InitImageBuilderOrDie: with no endpoint there is no map. The client that cannot be made panics,
-- which is not part of this.
unfoldable pub init_app_map : String → Option (List (String × BuildContext))
init_app_map endpoint = if endpoint == "" then none else some []

-- finish
unfoldable pub finish : Option Error → BuildContext → BuildContext
finish e b = record b { error = e; done = true }

-- fallback, and the deferred `b.cancel()` of start
unfoldable pub fallback : BuildContext → BuildContext
fallback b = record b { cancelled = true }

-- start, up to its deferred cancel: the build's front end options come from the Dockerfile, which
-- is a text to be written to a file, or a URL.
run_build : Env → BuildContext → Option String → BuildContext
unfolding finish
run_build env b none =
    let file = b.name ++ ".dockerfile" in
    elim (env.write_file file b.dockerfile) [
      | some e ↦ finish (some e) b
      | none ↦ finish (env.builder_solve b (("filename", file) ∷ [])) b
    ]
run_build env b (some scheme) =
    if scheme == "http" || scheme == "https"
    then finish (env.builder_solve b (("context", b.dockerfile) ∷ [])) b
    else finish (some invalid_dockerfile) b

unfoldable pub start : Env → BuildContext → BuildContext
unfolding run_build fallback
start env b = fallback (run_build env b (env.parse_url b.dockerfile))

abbrev pub image_of : CliApp → String
image_of app = "docker.io/warmmetal/" ++ app.name ++ ":v1"

abbrev pub new_context : CliApp → BuildContext
new_context app = record {
  name = app.name;
  dockerfile = app.spec.dockerfile;
  image = image_of app;
  error = some under_build;
  done = false;
  cancelled = false;
}

abbrev pub answer_of : BuildContext → Answer String
answer_of b = elim b.error [ none ↦ ok b.image | some e ↦ err e ]

-- The write to a nil map panics.
launch : Option (List (String × BuildContext)) → M (Answer String)
launch none s = panics "assignment to entry in nil map" s
launch (some m) s =
    let b = new_context s.app in
    returns (answer_of b)
      (logged (start_build b) (record s { app_map = some (insert s.app.name b m) }))

abbrev pub entries : Option (List (String × BuildContext)) → List (String × BuildContext)
entries none = []
entries (some m) = m

-- The build itself runs beside the reconciler: `start` is applied to the entry later, and the
-- error that is returned is the one of the new context.
unfoldable pub test_image : M (Answer String)
unfolding launch
test_image s = elim (lookup s.app.name (entries s.app_map)) [
  | some b ↦ (if b.done then returns (answer_of b) s else launch s.app_map s)
  | none ↦ launch s.app_map s
]

-- `delete` on the map, after the build's context is cancelled.
unfoldable pub cancel : M (Unit {0})
unfolding fallback
cancel s = elim (lookup s.app.name (entries s.app_map)) [
  | some b ↦ returns tt (
      logged (cancel_build (fallback b))
        (record s { app_map = some (delete s.app.name (entries s.app_map)) }))
  | none ↦ returns tt s
]
