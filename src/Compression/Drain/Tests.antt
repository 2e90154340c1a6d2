-- ===== src/Compression/Drain/Tests.antt =====
-- A node with two pods is emptied: the plugin binds them to another node.
use kluster_capacity.Base.{
  ◌≡◌, refl, sym, subst, ap, ◌∙◌, length, keep_if, String, List, [], ◌∷◌, inl, inr,
}
use kluster_capacity.Base.Monad.{ok}
use kluster_capacity.Env.Laws.{first_node, same_key, find_pod}
use kluster_capacity.Env.Memory.{Store, memory}
use kluster_capacity.Env.Memory.Laws.{
  memory-PodLaws, memory-NodeLaws, memory-CacheLaws, found-replace_pod, first_pod-cases,
  kept-replace_pod, other-replace_pod, first_pod-key,
}
use kluster_capacity.Framework.{start}
use kluster_capacity.Framework.Control.{get_pods_by_node}
use kluster_capacity.Plugin.{bind, bound}
use kluster_capacity.Compression.Cluster.{is_movable}
use kluster_capacity.Compression.Drain.Prepared.{Turn, IsHarmless, IsFaithful}
use kluster_capacity.Compression.Drain.Turns.{take_turn, take_turns}
use kluster_capacity.Compression.Drain.Vacate.{IsHost}
use kluster_capacity.Compression.Drain.Total.{select_next_node-drains, select_next_node-roll_back}
use kluster_capacity.Compression.Effects.{world}
use kluster_capacity.Compression.Filter.{build_filter_func, default_filter, check_pods}
use kluster_capacity.Compression.Events.{roll_back}
use kluster_capacity.Compression.Keys.{first_key-none}
use kluster_capacity.Compression.Progress.{scaled}
use kluster_capacity.Compression.Select.{select_node}
use kluster_capacity.Compression.Simulator.{Simulator, choose_node, select_next_node}
use kluster_capacity.Compression.Samples.{pods, ready, ready-nodes}
use kluster_capacity.Pods.{is_daemonset_pod}
use kluster_capacity.Samples.{pod_on, node_of_name, two_nodes}

-- The plugin binds the pod of this name to n2.
abbrev to_n2 : String → Turn Store
to_n2 name = record { place = λ w. (bind memory w (pod_on "" name) "n2").1; pod = pod_on "n2" name }

to_n2-IsHarmless : (name : String) → IsHarmless memory (to_n2 name)
unfolding bind
to_n2-IsHarmless name w ns other h = elim (first_pod-cases "web" name w.pods) [
  | inl (p, here) ↦ rw (here, bind) (found-replace_pod ns other (bound "n2" p) w.pods h)
  | inr (m, gone) ↦ rw (gone, bind) h
]

abbrev selected : Simulator Store
selected = (choose_node memory ready).1

chooses : choose_node memory ready ≡ (ok (node_of_name "n1"), selected)
unfolding choose_node start select_node build_filter_func default_filter check_pods is_daemonset_pod
    get_pods_by_node
chooses = refl

lists : get_pods_by_node memory two_nodes "n1" ≡ ok pods
unfolding get_pods_by_node
lists = refl

ready-IsHost :
    IsHost memory memory-PodLaws memory-NodeLaws memory-CacheLaws
      (node_of_name "n1")
      pods
      (world ready)
unfolding start
ready-IsHost = record {
  stored = node_of_name "n1";
  here = ap (first_node "n1") ready-nodes;
  listed = lists;
  distinct = ((refl, tt), (tt, tt));
  present = (refl, (refl, tt));
  named = ((λ h. cc h), ((λ h. cc h), tt));
}

both_movable : length (keep_if is_movable pods) ≡ 2
unfolding is_daemonset_pod
both_movable = refl

select_next_node-drains_example :
    (v t : Simulator Store) × (select_next_node memory 6 ready ≡ (ok tt, v))
    × (take_turns memory 5 (to_n2 "a" ∷ []) v ≡ (ok tt, t))
    × (scaled t ≡ [])
    × ((more : List String) × (scaled (take_turn memory 5 (to_n2 "b") t).1 ≡ "n1" ∷ more))
unfolding start
select_next_node-drains_example =
    select_next_node-drains memory memory-PodLaws memory-NodeLaws memory-CacheLaws 5
      (node_of_name "n1") pods (to_n2 "a" ∷ []) (to_n2 "b") ready selected chooses ready-IsHost
      both_movable refl (to_n2-IsHarmless "a", tt)

a-IsFaithful : IsFaithful memory pods (to_n2 "a")
unfolding bind
a-IsFaithful w ns other = elim (first_pod-cases "web" "a" w.pods) [
  | inl (p, here) ↦
      let (space, name') = first_pod-key "web" "a" w.pods p here in
      (
        λ r was. rw (here, bind) (kept-replace_pod ns other (bound "n2" p) w.pods r was),
        λ h.
            rw (here, bind)
              (other-replace_pod ns other (bound "n2" p) w.pods (
                (λ i. same_key (space i) (name' i) ns other)
                ∙ first_key-none pods 0 (pod_on "n1" "a") ns other h refl)),
      )
  | inr (m, gone) ↦ (λ r was. rw (gone, bind) (r, was), λ h. rw (gone, bind) refl)
]

movable : keep_if is_movable pods ≡ pods
unfolding is_daemonset_pod
movable = refl

select_next_node-roll_back_example :
    (v t after : Simulator Store) × (select_next_node memory 6 ready ≡ (ok tt, v))
    × (take_turns memory 5 (to_n2 "a" ∷ []) v ≡ (ok tt, t))
    × (roll_back memory 5 t ≡ (ok tt, after))
    × (scaled after ≡ [])
    × ((ns name : String)
        → find_pod memory (world after) ns name ≡ find_pod memory two_nodes ns name)
unfolding start
select_next_node-roll_back_example =
    select_next_node-roll_back memory memory-PodLaws memory-NodeLaws memory-CacheLaws 5 0
      (node_of_name "n1") pods (to_n2 "a" ∷ []) ready selected chooses ready-IsHost both_movable
      refl (to_n2-IsHarmless "a", tt)
      (subst (λ qs. IsFaithful memory qs (to_n2 "a")) (sym movable) a-IsFaithful, tt)
