-- ===== src/Controller/Workload/ImagePaths.antt =====
-- fetchImageConfiguration (controllers/cliapp_workload.go), and what applyAppConfig makes of the
-- PATH of an image.
use Prim.Native.String
use Prim.Native.String.{String}
use cliapp.Base.{List, [], ◌∷◌, map, Option, none, some, is_blank, is_nil, if◌then◌else◌, lookup}
use cliapp.Base.Text.{split, join, join_rooted, has_prefix, after_prefix}
use cliapp.Controller.State.{Env, M, returns, Answer, ok, err, image_status, ImageConfig}
use cliapp.Controller.Calls.{logged}

-- The first variable that begins with "PATH=", without that prefix; "" if there is none.
unfoldable pub find_path : List String → String
find_path [] = ""
find_path (env ∷ envs) = if has_prefix env "PATH=" then after_prefix "PATH=" env else find_path envs

-- workdir and paths
pub record ImagePaths : Type 0 where
  pub workdir : String
  pub paths : String

abbrev no_paths : ImagePaths
no_paths = record { workdir = ""; paths = "" }

abbrev info_text : Option String → String
info_text none = ""
info_text (some s) = s

image_paths_of : Answer ImageConfig → Answer ImagePaths
unfolding find_path
image_paths_of (err e) = err e
image_paths_of (ok config) =
    ok (record { workdir = config.working_dir; paths = find_path config.env })

-- No info at all and no text under "info" are answered alike, without an error.
read_info : Env → Answer (List (String × String)) → Answer ImagePaths
unfolding image_paths_of
read_info env (err e) = err e
read_info env (ok info) =
    let text = info_text (lookup "info" info) in
    if is_nil info
    then ok no_paths
    else if is_blank text
    then ok no_paths
    else image_paths_of (env.decode_info text)

unfoldable pub fetch_image_configuration : Env → String → M (Answer ImagePaths)
unfolding read_info
fetch_image_configuration env image s =
    returns (read_info env (env.image_status_answer s.log image)) (logged (image_status image) s)

abbrev pub app_root : String
app_root = "/app-root"

-- The value of PATH in the container: the context's directories, then the image's under the root.
unfoldable pub container_path : String → String
container_path paths =
    String.◌++◌ "/usr/local/sbin:/usr/local/bin:/usr/sbin:/usr/bin:/sbin:/bin:"
      (join ":" (map (join_rooted app_root) (split b':' paths)))
