-- ===== src/Compression/Cluster.antt =====
-- The methods of simulator.go on the fake API server: taints, labels, and the pods of a node.
use kluster_capacity.Base.{
  ℕ, zero, suc, String, Bool, not, ◌&&◌, List, [], ◌∷◌, none, some, ◌==◌, if◌then◌else◌, get_elem?,
  keep_if,
}
use kluster_capacity.Base.Dict.{insert, is_some}
use kluster_capacity.Base.Monad.{Result, ok, panic, Action, ◌>>=◌, ◌>>◌, pure, crash, lift}
use kluster_capacity.Kube.{Pod, Node, Taint}
use kluster_capacity.Env.{Env, read, write}
use kluster_capacity.Pods.{is_daemonset_pod, init_pod}

abbrev pub taint_node_unschedulable : String
taint_node_unschedulable = "node.kubernetes.io/unschedulable"

abbrev pub unschedule_taint : Taint
unschedule_taint = record { key = taint_node_unschedulable; effect = "NoSchedule" }

abbrev pub is_other_taint : Taint → Bool
is_other_taint t = not (t.key == taint_node_unschedulable)

unfoldable pub cordoned : Node → Node
cordoned n = record n { taints = unschedule_taint ∷ keep_if is_other_taint n.taints }

unfoldable pub uncordoned : Node → Node
uncordoned n = record n { taints = keep_if is_other_taint n.taints }

-- `copy.Labels[key] = value`, which panics on a nil map.
abbrev pub set_label : String → String → Node → Result Node
set_label key value n = elim n.labels [
  | none ↦ panic
  | some m ↦ ok (record n { labels = some (insert key value m) })
]

abbrev pub is_movable : Pod → Bool
is_movable p = not (is_daemonset_pod p.owner_references) && not (is_some p.deletion_timestamp)

-- The methods on the fake API server.
module _ (e : Env) where
  open e use {World, get_node, update_node, create_pod, delete_pod}

  unfoldable pub cordon : Node → Action World (Unit {0})
  unfolding cordoned
  cordon node = do n ← read (λ w. get_node w node.name); write (λ w. update_node w (cordoned n))

  unfoldable pub uncordon : String → Action World (Unit {0})
  unfolding uncordoned
  uncordon name = do n ← read (λ w. get_node w name); write (λ w. update_node w (uncordoned n))

  unfoldable pub add_label_to_node : (name key value : String) → Action World (Unit {0})
  add_label_to_node name key value = do
    n ← read (λ w. get_node w name)
    labelled ← lift (set_label key value n)
    write (λ w. update_node w labelled)

  abbrev pub delete_of : Pod → Action World (Unit {0})
  delete_of p = write (λ w. delete_pod w p.namespace p.name)

  abbrev pub create_of : Pod → Action World (Unit {0})
  create_of p = write (λ w. create_pod w p.namespace p)

  -- `Create(…, utils.InitPod(p))`
  abbrev pub create_reset : Pod → Action World (Unit {0})
  create_reset p = write (λ w. create_pod w p.namespace (init_pod e w p))

  -- The pods that can be moved are deleted, and returned.
  unfoldable pub delete_movable : List Pod → Action World (List Pod)
  delete_movable [] = pure []
  delete_movable (p ∷ ps) =
      let rest = delete_movable ps in
      if is_movable p then (do delete_of p; qs ← rest; pure (p ∷ qs)) else rest

  -- `for index := createPodIndex - 1; index >= 0; index--`, over the pods below the index.
  unfoldable pub delete_down_from : ℕ → List Pod → Action World (Unit {0})
  delete_down_from zero ps = pure tt
  delete_down_from (suc i) ps = elim (get_elem? ps i) [
    | none ↦ crash
    | some p ↦ delete_of p >> delete_down_from i ps
  ]

  unfoldable pub create_all : List Pod → Action World (Unit {0})
  create_all [] = pure tt
  create_all (p ∷ ps) = create_of p >> create_all ps

  unfoldable pub update_pods_from_created_pods : ℕ → List Pod → Action World (Unit {0})
  unfolding delete_down_from create_all
  update_pods_from_created_pods index ps = delete_down_from index ps >> create_all ps
