-- ===== src/Lib.antt =====
-- A verification library of cliapp, which runs command line programs in Kubernetes Pods. The user
-- asks for an app; a controller builds its image if it must, and keeps a Pod for it; a session gate
-- starts the app when a client opens a shell in it, and lets it rest when the last client has left.
--
-- Parts, and the code that each models:
--
-- Api: the types of pkg/apis/cliapp/v1/cliapp_types.go. The constants of a phase, a distro and a
-- shell are constructors; `other` stands for every other text. Kube: the fields of Kubernetes
-- objects that the program names; objects of the API itself are not part of the repository.
--
-- Utils: pkg/utils/utils.go, the readiness of a Pod and the namespace that the program runs in.
--
-- Manager: main of cmd/manager/manager.go with the configuration of
-- pkg/apis/config/v1/cliappdefault_types.go, from the configuration to the reconciler that runs,
-- with what the machine and the cluster answer as the record `Host`.
--
-- Controller: controllers/. A pass is a function of the monad `M` (Controller.State), which carries
-- the app, the table of image builds and the log of the calls made, and may end in a panic. What
-- services answer is the record `Env`: each answer is a function of the calls made before, so that
-- it can differ from call to call, and updates can conflict. Controller.Reconcile is Reconcile of
-- cliapp_controller.go, Rest and Live are makeAppRest and makeAppLive, Claim is claimPods, Transit,
-- Pods and Validate are transitPhaseTo, groupPods and validateApp of cliapp_common.go, Build is
-- cliapp_build.go, with the table of contexts as values, and Build.Shared has the contexts as
-- objects that the goroutines of the builds write to between the passes; Start and Workload are
-- cliapp_workload.go, and Fork is cliapp_fork.go. Controller.Phases is an independent description
-- of the phases: a graph with an edge for each change that a target allows. Controller.Env has what
-- some theorems ask of the API server: an update answers the object with the status, the spec and
-- the name that were sent, and Pods have names. Controller.Keeps is about operations that leave the
-- app alone and make calls of one kind only, reading ones for instance; Controller.Sends says what
-- a pass sends. Controller.Passes runs passes one after the other: each has services of its own and
-- begins with the object that the server holds behind the calls of the one before.
-- Controller.Cluster adds the Pods: a deleted Pod goes on, marked, until it ends. makeAppRest lists
-- Pods through the manager's client, which reads from a cache, and claimPods lists them from the
-- API server: these are two calls with answers of their own. Cluster.Clean is about a cache that
-- shows an app's Pods where there are some, Cluster.Stale about one that is behind.
--
-- Gate: pkg/gate/. Session is appSession of session.go under its mutex, where a change is a number
-- and stands for its context and its channel. Races lets the steps of clients fall between each
-- other, and Clients runs any number of clients and the goroutines of their changes, step by step
-- in any order. Start is startApp and closeApp, with the API server as the record `AppClient`.
-- Waiting is the channel of a change and the clients that wait on it. Table is the map of sessions
-- of gate.go, Init its start with main of cmd/session-gate/session-gate.go, and Shell is OpenShell
-- and attach. Io is the reader of io.go, and Io.Channels the same reader as an object that its
-- goroutines share, with its flag and its channels; Output its writer with the progress writer of
-- session.go.
--
-- Libcli: pkg/libcli/api.go. Endpoints is FetchGateEndpoints; Exec is ExecCliApp: the choice of an
-- endpoint, the receiver, and the loop as a function of the events that select picks. Streams has
-- the goroutines that read the input and the gate's answers.
--
-- System: the gate and the manager at work on one app, as steps on the object that the server
-- holds: attempts of startApp and closeApp and whole passes, in any order. System.Course is the
-- abstract view: a target and a phase. An update that finds the object changed since it was read is
-- refused by the API server, so that an attempt that writes has read what it writes to.
--
-- How they interact: the gate sets an app's target phase, the controller moves the app along the
-- phase graph, the gate waits until it is Live, and runs the client's command in the Pod that the
-- controller wrote to the status. The client's loop sends what is typed to the gate's reader, and
-- gets the exit code of the program back as the text of a status.
--
-- Bounds and fuel: numbers are natural. How often RetryOnConflict of client-go repeats an attempt
-- is the field `repetitions`, which every theorem leaves open: it stands for the number of
-- conflicts that the attempts meet. The decimals of a number are written on fuel: the number is
-- enough, as each division makes it smaller, and Decimal.Laws shows it by reading them back. Sizes
-- of a terminal wrap to 16 bits. The count of clients is not bounded to 32 bits. Times are
-- nanoseconds.
--
-- Not modelled: the generated clients, informers, listers, deep copies and messages; the flags and
-- logs of the two programs; the registration of the reconciler with the manager; the deadlines of
-- calls; colours of the progress lines, the JSON dump and the hash of a spec, which are parameters.
-- In a pass the goroutine of a build is a function of its own, whose result the table holds when
-- the pass looks at it; Build.Shared has it end at any time between the polls. The two flags that
-- goroutines read and write without a lock, `closed` of the reader and `Done` of a build, are taken
-- to be seen at once, and a build's image and error with its flag. A pass is one step of System: an
-- attempt of the gate between two calls of a pass makes the pass's later updates conflict, which
-- the answers of `Env` allow.
mod Base
pub mod Api
pub mod Kube
pub mod Utils
pub mod Controller
pub mod Gate
pub mod Libcli
pub mod Manager
pub mod System
mod Examples
