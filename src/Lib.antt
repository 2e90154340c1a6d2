-- ===== src/Lib.antt =====
-- kluster-capacity simulates the scheduler of a Kubernetes cluster, to tell how many pods still fit
-- (capacity estimation), how the pods would be scheduled anew (scheduler simulation) and which nodes could
-- be removed (cluster compression). All three put a copy of the cluster into a fake API server, run the
-- real scheduler on it with a binding plugin of their own, and act when a pod has been bound or could not be.
--
-- Base is what the files share: tests on numbers and texts, lists, association lists (Dict), and the
-- calls of Go as state passing (Monad), where the state also comes back after an error or a panic, or without a
-- state (Outcome). Frame states what a call leaves as it was, Live that it does not run out of fuel,
-- Safe that it neither does so nor breaks an invariant, and Post what holds after a success or another outcome.
-- Kube has the objects of the Kubernetes API, with the fields that the program reads. Env is the interface of
-- what the program calls: the fake API server, the cache of the scheduler, uids, files. Its state is a
-- parameter. Env/Laws states the documented behaviour of the API server that proofs rely on, Env/Answers that
-- its calls return, and Env/Memory is a concrete one, in which the tests run and which meets the laws.
-- Status: pkg/status.go, pkg/const.go. Pods: pkg/utils/pod.go. Plugin: pkg/plugins/generic/plugin.go.
-- Framework: pkg/framework/kubescheduler.go. The struct, its options and constructor are in Framework and
-- Framework/Scheduler, getInitObjects in Framework/InitObjects, preAdd and Initialize in Framework/Admission, and Stop, Run, CreatePod and
-- GetPodsByNode in Framework/Control. A channel is a Boolean, whether it is closed; the mutex of Stop makes its
-- calls follow one another, as they do here.
-- Compression: pkg/simulator/clustercompression. Filter is options.go and the first half of nodeFilter.go,
-- Select is SelectNode; Cluster has the methods of simulator.go that only call the API server, Simulator has
-- selectNextNode, and Events has postBindHook and the event handler. What the scheduler decides is a
-- sequence of events: a pod was bound, or a pod was updated.
-- Watch is what the event handlers of two simulators test. StopReason: getMainStopReason, which the reports of
-- pkg/simulator/capacityestimation and pkg/simulator/clustercompression both have.
-- Estimation: pkg/simulator/capacityestimation, the simulator and the generator in Estimation, report.go in
-- Estimation/Report. The counter of the generator is a uint of 64 bits, the number of replicas an int32.
-- Simulation: pkg/simulator/schedulersimulation, the simulator with the sets of its event handlers in Simulation,
-- report.go in Simulation/Report. Additions of int64 wrap around.
-- Config: pkg/utils/utils.go, on an interface of the packages that it calls; the last part of that file is in
-- Config/Requests (the resources of a pod) and Print (the encoders). What is printed is the list of the texts of the
-- calls of fmt. The children Print of the reports have their printing.
-- Executor and its namesakes below Estimation, Simulation and Compression are the constructors
-- New...SimulatorExecutor and the methods Run and Report. The simulators of a capacity estimation run at the
-- same time: each changes its own state, so that only the order in which they finish counts, and this is an argument.
-- Commands: app/cmds, the options with their flags, the validation and the functions run of the three commands;
-- Commands/Estimation/Spec has ParseAPISpec, Commands/Estimation/Table follows a run of ce to its table,
-- and Commands/Compression/Lines a run of cc to the lines that it prints.
-- NamespaceNames: app/cmds/capacityestimation/options/namespacename.go.
-- App: main.go and app/root.go, with the packages cobra and viper as arguments. Version: pkg/version.
-- selectNextNode calls itself after a node without pods to move, with no bound of its own: it takes fuel,
-- and the outcome `stuck` tells that the fuel ran out. It also is the outcome of Run when the stop channel is still
-- open after everything that the scheduler does, for which Run waits. Compression/Fuel relates calls with different fuel, and
-- Compression/Ends says how much is enough: Labels counts the nodes that can still be selected, Effects and its
-- children have what each part of a round does to them. Compression/Runs has a run on a list of steps (an event,
-- or a change of the outside), in which every selection takes its fuel anew. Compression/Drain follows one node
-- from its selection to its report, or until its pods are back. What the scheduler does in between is a list of
-- turns: any change of the outside, and then a call of postBindHook. Compression/Once follows the reported nodes,
-- the candidates and the current node through a run.
--
-- Not modelled: the scheduler itself, the informers, the parsing of flags by cobra and pflag, logging, time stamps,
-- help texts, and hack/tools, which is copied from another project. The counters of a run are natural
-- numbers; each counts steps of the run.
pub mod App
pub mod Base
pub mod Commands
pub mod Compression
pub mod Config
pub mod Env
pub mod Estimation
pub mod Executor
pub mod Framework
pub mod Kube
pub mod NamespaceNames
pub mod Plugin
pub mod Pods
pub mod Print
pub mod Samples
pub mod Simulation
pub mod Status
pub mod StopReason
pub mod Version
pub mod Watch
