-- ===== src/Gate/Table.antt =====
-- The gate's sessions by namespace and name (sessionMap of terminalGate, pkg/gate/gate.go), where
-- OpenShell looks a session up and makes it.
use cliapp.Base.{Bool, ◌&&◌, Option, none, some, List, [], ◌∷◌, String, ◌==◌, if◌then◌else◌}
use cliapp.Gate.Session.{AppSession, new_session}

-- types.NamespacedName
pub record NamespacedName : Type 0 where
  pub namespace : String
  pub name : String

abbrev pub same_key : NamespacedName → NamespacedName → Bool
same_key a b = a.namespace == b.namespace && a.name == b.name

abbrev pub SessionMap : Type 0
SessionMap = List (NamespacedName × AppSession)

unfoldable pub find : NamespacedName → SessionMap → Option AppSession
find key [] = none
find key ((k, t) ∷ others) =
    let further = find key others in if same_key k key then some t else further

unfoldable pub put : NamespacedName → AppSession → SessionMap → SessionMap
put key u [] = (key, u) ∷ []
put key u ((k, t) ∷ others) =
    let kept = put key u others in if same_key k key then (k, u) ∷ others else (k, t) ∷ kept

abbrev or_new : Option AppSession → AppSession
or_new none = new_session
or_new (some t) = t

-- The session of a key, which OpenShell makes where there is none.
unfoldable pub session_of : NamespacedName → SessionMap → AppSession
unfolding find
session_of key sessions = or_new (find key sessions)
