-- ===== src/Env/Laws.antt =====
-- The documented behaviour of the fake API server that proofs rely on: it stores pods by namespace
-- and name and nodes by name. `find_pod` and `find_node` are its contents.
use kluster_capacity.Base.{
  String, Bool, ◌&&◌, ◌≡◌, List, [], ◌∷◌, Option, none, some, ◌==◌, if◌then◌else◌,
}
use kluster_capacity.Base.Monad.{Result, ok, err, panic, stuck}
use kluster_capacity.Kube.{Pod, Node}
use kluster_capacity.Env.{Env}

abbrev pub found {ℓ} : {A : Type ℓ} → Result A → Option A
found (ok a) = some a
found (err e) = none
found panic = none
found stuck = none

abbrev pub same_key : String → String → String → String → Bool
same_key ns name ns' name' = ns == ns' && name == name'

abbrev pub first_node : String → List Node → Result Node
first_node name [] = err "not found"
first_node name (n ∷ ns) = if n.name == name then ok n else first_node name ns

abbrev pub replace_node : Node → List Node → List Node
replace_node q [] = []
replace_node q (n ∷ ns) = if n.name == q.name then q ∷ ns else n ∷ replace_node q ns

module _ (e : Env) where
  open e use {World}

  abbrev pub find_pod : World → String → String → Option Pod
  find_pod w ns name = found (e.get_pod w ns name)

  pub record PodLaws : Type 0 where
    -- `Create` fails exactly on a name that is taken, `Delete` on one that is not.
    pub create_ok :
        (w : World) (p : Pod)
        → find_pod w p.namespace p.name ≡ none
        → (w' : World) × (e.create_pod w p.namespace p ≡ ok w')
    pub find-create :
        (w w' : World) (p : Pod) (ns name : String)
        → e.create_pod w p.namespace p ≡ ok w'
        → find_pod w' ns name
          ≡ (if same_key p.namespace p.name ns name then some p else find_pod w ns name)
    pub delete_ok :
        (w : World) (ns name : String) (p : Pod)
        → find_pod w ns name ≡ some p
        → (w' : World) × (e.delete_pod w ns name ≡ ok w')
    pub find-delete :
        (w w' : World) (ns name ns' name' : String)
        → e.delete_pod w ns name ≡ ok w'
        → find_pod w' ns' name'
          ≡ (if same_key ns name ns' name' then none else find_pod w ns' name')

  -- The nodes are a list, read and written by name.
  pub record NodeLaws : Type 0 where
    pub nodes : World → List Node
    pub list_nodes_lem : (w : World) → e.list_nodes w ≡ ok (nodes w)
    pub get_node_lem : (w : World) (name : String) → e.get_node w name ≡ first_node name (nodes w)
    pub update_node_ok :
        (w : World) (n m : Node)
        → first_node n.name (nodes w) ≡ ok m
        → (w' : World) × (e.update_node w n ≡ ok w')
    pub nodes-update_node :
        (w w' : World) (n : Node) → e.update_node w n ≡ ok w' → nodes w' ≡ replace_node n (nodes w)
    pub nodes-delete_pod :
        (w w' : World) (ns name : String) → e.delete_pod w ns name ≡ ok w' → nodes w' ≡ nodes w
    pub nodes-create_pod :
        (w w' : World) (ns : String) (p : Pod) → e.create_pod w ns p ≡ ok w' → nodes w' ≡ nodes w
    pub nodes-open_file :
        (w w' : World) (path : String) → e.open_file w path ≡ ok w' → nodes w' ≡ nodes w
    pub nodes-write_file :
        (w w' : World) (path text : String) → e.write_file w path text ≡ ok w' → nodes w' ≡ nodes w

  -- A node that is written is no pod, and moves none.
  pub record CacheLaws : Type 0 where
    pub find-update_node :
        (w w' : World) (n : Node) (ns name : String)
        → e.update_node w n ≡ ok w'
        → find_pod w' ns name ≡ find_pod w ns name
    pub dump-update_node :
        (w w' : World) (n : Node) → e.update_node w n ≡ ok w' → e.dump w' ≡ e.dump w
