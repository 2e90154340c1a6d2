-- ===== src/Env.antt =====
-- What the program calls and does not implement: the fake API server of client-go, the cache of
-- the scheduler, defaulting, random uids, and files. `World` is all of their state.
pub mod Laws
pub mod Answers
pub mod Memory
use kluster_capacity.Base.{ℕ, String, Bool, List, Option}
use kluster_capacity.Base.Dict.{Dict}
use kluster_capacity.Base.Monad.{Result, ok, err, panic, stuck, Action}
use kluster_capacity.Kube.{Pod, Node, Object}
use kluster_capacity.Status.{Status}

pub record Env : Type 1 where
  pub World : Type 0
  -- CoreV1().Nodes()
  pub get_node : World → (name : String) → Result Node
  pub update_node : World → Node → Result World
  pub list_nodes : World → Result (List Node)
  -- CoreV1().Pods(namespace)
  pub get_pod : World → (namespace name : String) → Result Pod
  pub create_pod : World → (namespace : String) → Pod → Result World
  pub update_pod : World → (namespace : String) → Pod → Result World
  pub delete_pod : World → (namespace name : String) → Result World
  pub list_pods : World → Result (List Pod)
  -- Tracker().Add
  pub add_object : World → Object → Result World
  -- scheduler.Cache.Dump(): for each node its pods, whose pointers may be nil; or nil
  pub dump : World → Option (Dict (List (Option Pod)))
  -- apiv1.SetObjectDefaults_Pod
  pub set_object_defaults : Pod → Pod
  -- uuid.NewV4, which is random, and so depends on anything
  pub new_uid : World → String
  -- the order in which `range` visits a map
  pub range : (V : Type 0) → Dict V → Dict V
  -- os.OpenFile, json.Marshal of the status, and file.Write
  pub open_file : World → (path : String) → Result World
  pub marshal_status : Status → Result String
  pub write_file : World → (path text : String) → Result World

-- A call that reads the world, and one that changes it.
abbrev pub read : {W A : Type 0} → (W → Result A) → Action W A
read f w = (f w, w)

abbrev pub written : {W : Type 0} → W → Result W → Result (Unit {0}) × W
written w (ok w') = (ok tt, w')
written w (err e) = (err e, w)
written w panic = (panic, w)
written w stuck = (stuck, w)

abbrev pub write : {W : Type 0} → (W → Result W) → Action W (Unit {0})
write f w = written w (f w)
