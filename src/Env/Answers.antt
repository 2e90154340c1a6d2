-- ===== src/Env/Answers.antt =====
-- What the program calls answers: with a value, an error or a panic.
use kluster_capacity.Base.{String, ◌≢◌, refl}
use kluster_capacity.Base.Live.{Live}
use kluster_capacity.Base.Monad.{Result, ok, err, panic, stuck}
use kluster_capacity.Kube.{Pod, Node}
use kluster_capacity.Status.{Status}
use kluster_capacity.Env.{Env, read, write, written}

-- The calls that the simulators make while they run.
pub record Answers (e : Env) : Type 0 where
  pub get_node : (w : e.World) (name : String) → e.get_node w name ≢ stuck
  pub update_node : (w : e.World) (n : Node) → e.update_node w n ≢ stuck
  pub list_nodes : (w : e.World) → e.list_nodes w ≢ stuck
  pub create_pod : (w : e.World) (ns : String) (p : Pod) → e.create_pod w ns p ≢ stuck
  pub delete_pod : (w : e.World) (ns name : String) → e.delete_pod w ns name ≢ stuck
  pub list_pods : (w : e.World) → e.list_pods w ≢ stuck
  pub open_file : (w : e.World) (path : String) → e.open_file w path ≢ stuck
  pub marshal_status : (s : Status) → e.marshal_status s ≢ stuck
  pub write_file : (w : e.World) (path text : String) → e.write_file w path text ≢ stuck

pub read-Live : {W A : Type 0} (f : W → Result A) → ((w : W) → f w ≢ stuck) → Live (read f)
read-Live f h = h

pub write-Live : {W : Type 0} (f : W → Result W) → ((w : W) → f w ≢ stuck) → Live (write f)
write-Live {W} f h w = go (f w) (h w)
  where
    go : (r : Result W) → r ≢ stuck → (written w r).0 ≢ stuck
    go (ok v) k e = cc e
    go (err m) k e = cc e
    go panic k e = cc e
    go stuck k e = k refl
