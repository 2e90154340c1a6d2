-- ===== src/Framework/Control/Done.antt =====
-- A call of `Stop` that has nothing to save and can list the objects.
use kluster_capacity.Base.{String, ◌≡◌, ap, ◌∙◌, false, List, [], eq_iff, if◌then◌else◌, arith}
use kluster_capacity.Base.Monad.{ok, ◌>>◌, >>=-ok, pure}
use kluster_capacity.Kube.{Pod, Node}
use kluster_capacity.Status.{Status}
use kluster_capacity.Env.{Env}
use kluster_capacity.Framework.{Framework}
use kluster_capacity.Framework.Control.{
  stop, prepare, finish, take_stock, save_as_set, save, node_map,
}
use kluster_capacity.Framework.Control.Stop.{IsConsistent, closed, finish_lem}

-- The status that `Stop` leaves.
abbrev pub final : List Node → List Pod → String → Status → Status
final ns ps reason s = record s { nodes = node_map [] ns; pods = ps; stop_reason = reason }

module _ (e : Env) {H : Type 0} (ns : List Node) (ps : List Pod) where
  open e use {World}

  abbrev pub stocked : String → Framework World H → Framework World H
  stocked reason f = record f { status = final ns ps reason f.status }

  take_stock_lem :
      (reason : String) (f : Framework World H)
      → e.list_nodes f.world ≡ ok ns
      → e.list_pods f.world ≡ ok ps
      → take_stock e reason f ≡ (ok tt, stocked reason f)
  unfolding take_stock
  take_stock_lem reason f nodes pods = ground arith

  prepare_lem :
      (reason : String) (f : Framework World H)
      → f.save_to ≡ ""
      → e.list_nodes f.world ≡ ok ns
      → e.list_pods f.world ≡ ok ps
      → prepare e reason f ≡ (ok tt, stocked reason f)
  unfolding prepare
  prepare_lem reason f unsaved nodes pods =
      >>=-ok (take_stock e reason) (λ _. save_as_set e) f (stocked reason f)
        (take_stock_lem reason f nodes pods)
      ∙ ap (λ b. (if b then pure tt else save e f.save_to) (stocked reason f))
          ((eq_iff f.save_to "").1 unsaved)

  -- The first call stops, and leaves the settings and the world.
  pub stop_done :
      (reason : String) (f : Framework World H)
      → IsConsistent f
      → f.stopped ≡ false
      → f.save_to ≡ ""
      → e.list_nodes f.world ≡ ok ns
      → e.list_pods f.world ≡ ok ps
      → stop e reason f ≡ (ok tt, closed (stocked reason f))
  unfolding stop
  stop_done reason f c running unsaved nodes pods =
      ap (λ b. (if b then pure tt else (prepare e reason >> finish e)) f) running
      ∙ >>=-ok (prepare e reason) (λ _. finish e) f (stocked reason f)
          (prepare_lem reason f unsaved nodes pods)
      ∙ finish_lem e (stocked reason f) (c.stop_ch ∙ running) (c.informer_ch ∙ running)
          (c.scheduler_ch ∙ running)
