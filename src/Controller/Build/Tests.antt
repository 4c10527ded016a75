-- ===== src/Controller/Build/Tests.antt =====
-- testImage and start (controllers/cliapp_build.go): the builds of images as the reconciler sees
-- them.
use cliapp.Base.{
  ◌≡◌, ◌≢◌, true, false, none, some, List, ◌∷◌, String, lookup, lookup-insert, arith, eq_iff,
}
use cliapp.Controller.State.{BuildContext, Env, State, returns, panics, after, Ends, start_build}
use cliapp.Controller.Keeps.{Keeps, same, more}
use cliapp.Controller.Build.{start, new_context, answer_of, entries, test_image}

pub test_image-Keeps : Keeps test_image
unfolding test_image
test_image-Keeps s = grind (arith, same, more)

-- Whatever the Dockerfile is, a build that has been run is done and its context is released; its
-- error is then the answer of the builder or the reason why it was not asked, never "under build"
-- unless a service says so.
start-done :
    (env : Env) (b : BuildContext)
    → ((start env b).done ≡ true)
      × ((start env b).cancelled ≡ true)
      × ((start env b).image ≡ b.image)
      × ((start env b).dockerfile ≡ b.dockerfile)
unfolding start
start-done env b = ground arith

-- A finished build is answered from the map: its image, or its error, and nothing is started.
test_image_finished :
    (s : State) (b : BuildContext)
    → lookup s.app.name (entries s.app_map) ≡ some b
    → b.done ≡ true
    → test_image s ≡ returns (answer_of b) s
unfolding test_image
test_image_finished s b h d = ground arith

-- Where there is a map, a build that has not finished is started once more: a second build of the
-- same name begins, its context takes the entry's place, and the first build is not cancelled.
test_image_unfinished :
    (s : State) (m : List (String × BuildContext)) (b : BuildContext)
    → s.app_map ≡ some m
    → lookup s.app.name m ≡ some b
    → b.done ≡ false
    → let t = after (test_image s) in
      (t.log ≡ start_build (new_context s.app) ∷ s.log)
      × (lookup s.app.name (entries t.app_map) ≡ some (new_context s.app))
unfolding test_image
test_image_unfinished s m b a h d =
    ground (
      arith,
      lookup-insert s.app.name s.app.name (new_context s.app) m,
      eq_iff s.app.name s.app.name,
    )

-- Without a map the first test of an image panics.
test_image_no_map :
    (s : State) → s.app_map ≡ none → test_image s ≡ panics "assignment to entry in nil map" s
unfolding test_image lookup
test_image_no_map s h = ground arith

-- With a map no test panics.
pub test_image-Ends : (s : State) → s.app_map ≢ none → Ends (test_image s)
unfolding test_image
test_image-Ends s h = ground arith
