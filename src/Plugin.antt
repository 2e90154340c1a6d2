-- ===== src/Plugin.antt =====
-- pkg/plugins/generic/plugin.go: the plugin that binds pods in the simulated cluster and calls the
-- simulator back.
use kluster_capacity.Base.{String, ◌<>◌, Option, none, some, if◌then◌else◌}
use kluster_capacity.Base.Monad.{ok, err, Action, ◌>>=◌, ◌>>◌, pure, modify, attempt}
use kluster_capacity.Kube.{Pod}
use kluster_capacity.Status.{Status, pod_provisioner, scheduler_count_inc}
use kluster_capacity.Env.{Env}
use kluster_capacity.Pods.{has_annotation}

abbrev pub bound : String → Pod → Pod
bound node p = record p {
  spec = record (p.spec) { node_name = node };
  status = record (p.status) { phase = "Running" };
}

module _ (e : Env) where
  open e use {World, get_pod, update_pod}

  -- `none` is the nil status, which means success; `some` is an error with its message.
  abbrev update_bound : Pod → String → World → Option String × World
  update_bound p node w = elim (update_pod w p.namespace (bound node p)) [
    | ok w' ↦ (none, w')
    | err m ↦ (some ("Unable to update binded pod: " <> m), w)
    | _ ↦ (some "Unable to update binded pod: ", w)
  ]

  unfoldable pub bind : World → Pod → (node : String) → Option String × World
  bind w p node = elim (get_pod w p.namespace p.name) [
    | ok found ↦ update_bound found node w
    | err m ↦ (some ("Unable to bind: " <> m), w)
    | _ ↦ (some "Unable to bind: ", w)
  ]

-- `PostBind` over the state `S` of a simulator; the error of the hook is only logged.
module _ {S : Type 0} (update_status : (Status → Status) → S → S) where
  abbrev pub call_hook : (Pod → Action S (Unit {0})) → Pod → Action S (Unit {0})
  call_hook hook p = do modify (update_status scheduler_count_inc); e ← attempt (hook p); pure tt

  unfoldable pub post_bind : Option (Pod → Action S (Unit {0})) → Pod → Action S (Unit {0})
  post_bind none p = pure tt
  post_bind (some hook) p = if has_annotation p pod_provisioner then call_hook hook p else pure tt
