-- ===== src/Framework/Control.antt =====
-- GetPodsByNode, the updates of the status, CreatePod, Stop and Run.
pub mod Stop
pub mod Done
pub mod Live
pub mod Files
use kluster_capacity.Base.{
  String, ◌<>◌, Bool, true, false, not, List, [], ◌∷◌, ◌++◌, Option, none, some, ◌==◌,
  if◌then◌else◌,
}
use kluster_capacity.Base.Dict.{Dict, lookup, insert}
use kluster_capacity.Base.Monad.{
  Result, ok, err, panic, stuck, Action, ◌>>=◌, ◌>>◌, pure, raise, crash, get, modify, attempt,
  lift,
}
use kluster_capacity.Kube.{Pod, Node}
use kluster_capacity.Status.{Status}
use kluster_capacity.Env.{Env, write}
use kluster_capacity.Framework.{Framework, on_world}

-- The pods behind the pointers that are not nil.
abbrev pub present : List (Option Pod) → List Pod
present [] = []
present (none ∷ ps) = present ps
present (some p ∷ ps) = p ∷ present ps

abbrev pub pods_in : Option (List (Option Pod)) → List Pod
pods_in none = []
pods_in (some ps) = present ps

abbrev pub pods_of_dump : Option (Dict (List (Option Pod))) → String → List Pod
pods_of_dump none name = []
pods_of_dump (some nodes) name = pods_in (lookup name nodes)

-- `res` is nil exactly if nothing was appended to it.
abbrev pub or_no_dump : List Pod → Result (List Pod)
or_no_dump [] = err "cannot get pods on the node because dump is nil"
or_no_dump (p ∷ ps) = ok (p ∷ ps)

-- `for _, node := range nodeList.Items { nodeMap[node.Name] = node }`
abbrev pub node_map : Dict Node → List Node → Dict Node
node_map m [] = m
node_map m (n ∷ ns) = node_map (insert n.name n m) ns

-- `close`, which panics on a closed channel.
abbrev close : {S : Type 0} → Bool → Action S (Unit {0})
close true = crash
close false = pure tt

module _ {W H : Type 0} where
  abbrev pub update_status : (Status → Status) → Framework W H → Framework W H
  update_status g f = record f { status = g f.status }

  abbrev pub update_estimation_pods : List Pod → Framework W H → Framework W H
  update_estimation_pods ps =
      update_status λ s. record s { pods_for_estimation = s.pods_for_estimation ++ ps }

  unfoldable pub update_nodes_to_scale_down : String → Framework W H → Framework W H
  update_nodes_to_scale_down name =
      update_status λ s. record s { nodes_to_scale_down = s.nodes_to_scale_down ++ (name ∷ []) }

  -- The deferred function of `Stop`.
  close_channels : Action (Framework W H) (Unit {0})
  close_channels = do
    f ← get
    close f.stop_ch
    modify (λ g. record g { stop_ch = true })
    close f.informer_ch
    modify (λ g. record g { informer_ch = true })
    close f.scheduler_ch
    modify (λ g. record g { scheduler_ch = true })

module _ (e : Env) where
  open e use {World, create_pod, list_nodes, list_pods, dump, open_file, marshal_status, write_file}

  unfoldable pub get_pods_by_node : World → String → Result (List Pod)
  get_pods_by_node w name = or_no_dump (pods_of_dump (dump w) name)

module _ (e : Env) {H : Type 0} where
  open e use {World, create_pod, list_nodes, list_pods, open_file, marshal_status, write_file}

  unfoldable pub create : Pod → Action (Framework World H) (Unit {0})
  create p = on_world (write (λ w. create_pod w p.namespace p))

  -- A list that failed is nil, and reading its items panics.
  abbrev items : {A : Type 0} → Result A → Action (Framework World H) A
  items (ok xs) = pure xs
  items (err m) = crash
  items panic = crash
  items stuck = lift stuck

  -- An error of `os.OpenFile` is a panic.
  abbrev open_or_crash : String → Action (Framework World H) (Unit {0})
  open_or_crash path f = elim (open_file f.world path) [
    | ok w ↦ (ok tt, record f { world = w })
    | err m ↦ (panic, f)
    | panic ↦ (panic, f)
    | stuck ↦ (stuck, f)
  ]

  save : String → Action (Framework World H) (Unit {0})
  save path = do
    open_or_crash path
    f ← get
    bytes ← lift (marshal_status f.status)
    on_world (write (λ w. write_file w path bytes))

  take_stock : String → Action (Framework World H) (Unit {0})
  take_stock reason = do
    f ← get
    nodes ← items (list_nodes f.world)
    modify (update_status λ s. record s { nodes = node_map [] nodes })
    pods ← items (list_pods f.world)
    modify (update_status λ s. record s { pods = pods; stop_reason = reason })

  abbrev save_if : String → Action (Framework World H) (Unit {0})
  save_if path f = (if path == "" then pure tt else save path) f

  abbrev save_as_set : Action (Framework World H) (Unit {0})
  save_as_set f = save_if f.save_to f

  -- Up to the last early return.
  prepare : String → Action (Framework World H) (Unit {0})
  unfolding take_stock save
  prepare reason = take_stock reason >> save_as_set

  pub finish : Action (Framework World H) (Unit {0})
  unfolding close_channels
  finish = do modify (λ g. record g { stopped = true }); close_channels

  unfoldable pub stop : String → Action (Framework World H) (Unit {0})
  unfolding prepare finish
  stop reason f = (if f.stopped then pure tt else (prepare reason >> finish)) f

-- `Run`: the caches are synchronised, `init` is called, the scheduler is started, and the call waits for the stop
-- channel. `schedule` is all that the scheduler and the handlers do, in the state `S` of the simulator; it runs in
-- goroutines of its own, so that no error of it comes back. `stop_ch` is whether the channel is closed.
module _ {S : Type 0} (stop_ch : S → Bool) (stop : String → Action S (Unit {0}))
    (schedule : Action S (Unit {0})) where
  -- `<-s.stopCh`, which does not return while nothing closes the channel.
  abbrev pub wait : Action S (Unit {0})
  wait s = if stop_ch s then (ok tt, s) else (stuck, s)

  abbrev pub after_init : Option String → Action S (Unit {0})
  after_init none = attempt schedule >>= λ dropped. wait
  after_init (some m) = stop ("FailedRunInit: : " <> m)

  unfoldable pub run : Option (Action S (Unit {0})) → Action S (Unit {0})
  run none = after_init none
  run (some init) = attempt init >>= after_init
