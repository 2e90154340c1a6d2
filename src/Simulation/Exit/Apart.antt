-- ===== src/Simulation/Exit/Apart.antt =====
-- The two sets of a simulation have no key in common.
use kluster_capacity.Base.{
  ◌≡◌, refl, ◌∙◌, String, Bool, true, false, not, ◌&&◌, ◌||◌, List, [], ◌∷◌, any, ◌==◌, eq_iff,
  arith, Bool-cases, inl, inr,
}
use kluster_capacity.Kube.{Pod, PodCondition}
use kluster_capacity.Simulation.{
  holds, store, delete, Tracker, key_of, is_bound, is_unscheduled, add_func, store_failed,
  track_update, Event, added, updated,
}
use kluster_capacity.Simulation.Exit.{NoDup, holds-store, store-NoDup, track, added_keys, is_seen}

-- An update shows a pod of the key that could not be bound.
abbrev pub is_refused : String → Event → Bool
is_refused k (added p) = false
is_refused k (updated p) =
    not (is_bound p) && (any is_unscheduled p.status.conditions && key_of p == k)

-- The scheduler has tried a pod of the key.
abbrev pub is_tried : String → Event → Bool
is_tried k ev = is_seen k ev || is_refused k ev

-- A pod that has been seen on a node is not refused later, and one that was refused is not added later.
abbrev pub InOrder : List Event → Type 0
InOrder [] = Unit
InOrder (ev ∷ es) =
    ((k : String) → is_seen k ev ≡ true → any (is_refused k) es ≡ false)
    × ((k : String) → is_refused k ev ≡ true → holds k (added_keys es) ≡ false)
    × InOrder es

holds-store_failed :
    (key k : String) (cs : List PodCondition) (failed : List String)
    → holds k (store_failed key cs failed) ≡ (holds k failed || (any is_unscheduled cs && key == k))
unfolding store_failed
holds-store_failed key k [] failed = ground arith
holds-store_failed key k (c ∷ cs) failed = elim (Bool-cases (is_unscheduled c)) [
  | inl e ↦
      rw e
        (holds-store_failed key k cs (store key failed) ∙ ground (arith, holds-store key k failed))
  | inr e ↦ rw e (holds-store_failed key k cs failed)
]

store_failed-NoDup :
    (key : String) (cs : List PodCondition) (failed : List String)
    → NoDup failed
    → NoDup (store_failed key cs failed)
unfolding store_failed
store_failed-NoDup key [] failed d = d
store_failed-NoDup key (c ∷ cs) failed d = elim (Bool-cases (is_unscheduled c)) [
  | inl e ↦ rw e (store_failed-NoDup key cs (store key failed) (store-NoDup key failed d))
  | inr e ↦ rw e (store_failed-NoDup key cs failed d)
]

holds-delete :
    (key k : String) (ks : List String) → holds k (delete key ks) ≡ (holds k ks && not (key == k))
holds-delete key k [] = refl
holds-delete key k (x ∷ ks) =
    ground (arith, holds-delete key k ks, eq_iff x key, eq_iff x k, eq_iff key k)

delete-NoDup : (key : String) (ks : List String) → NoDup ks → NoDup (delete key ks)
delete-NoDup key [] d = tt
delete-NoDup key (x ∷ ks) d = elim (Bool-cases (x == key)) [
  | inl e ↦ rw e (delete-NoDup key ks d.1)
  | inr e ↦ rw e (holds-delete key x ks ∙ ground arith, delete-NoDup key ks d.1)
]

-- The keys of both sets.
abbrev pub both : Tracker → String → Bool
both t k = holds k t.succeed_pods || holds k t.failed_pods

both-add_func :
    (k : String) (p : Pod) (t : Tracker)
    → both (add_func p t) k ≡ (both t k || is_tried k (added p))
unfolding add_func
both-add_func k p t = elim (Bool-cases (is_bound p)) [
  | inl e ↦ ground (arith, holds-store (key_of p) k t.succeed_pods)
  | inr e ↦ ground arith
]

both-track_update :
    (k : String) (p : Pod) (t : Tracker)
    → both (track_update p t) k ≡ (both t k || is_tried k (updated p))
unfolding track_update
both-track_update k p t = elim (Bool-cases (is_bound p)) [
  | inl e ↦
      ground
        (arith, holds-store (key_of p) k t.succeed_pods, holds-delete (key_of p) k t.failed_pods)
  | inr e ↦ ground (arith, holds-store_failed (key_of p) k p.status.conditions t.failed_pods)
]

pub both-track :
    (k : String) (es : List Event) (t : Tracker)
    → both (track es t) k ≡ (both t k || any (is_tried k) es)
both-track k [] t = ground arith
both-track k (added p ∷ es) t = both-track k es (add_func p t) ∙ ground (arith, both-add_func k p t)
both-track k (updated p ∷ es) t =
    both-track k es (track_update p t) ∙ ground (arith, both-track_update k p t)

-- No key twice, not in both sets either, and none will be.
pub record IsApart (es : List Event) (t : Tracker) : Type 0 where
  pub succeed : NoDup t.succeed_pods
  pub failed : NoDup t.failed_pods
  pub apart : (k : String) → holds k t.succeed_pods ≡ true → holds k t.failed_pods ≡ false
  pub unrefused : (k : String) → holds k t.succeed_pods ≡ true → any (is_refused k) es ≡ false
  pub unadded : (k : String) → holds k t.failed_pods ≡ true → holds k (added_keys es) ≡ false

IsApart-added :
    (p : Pod) (es : List Event) (t : Tracker)
    → InOrder (added p ∷ es)
    → IsApart (added p ∷ es) t
    → IsApart es (add_func p t)
unfolding add_func
IsApart-added p es t order a = elim (Bool-cases (is_bound p)) [
  | inl e ↦
      rw (e, add_func)
        (record {
          succeed = store-NoDup (key_of p) t.succeed_pods a.succeed;
          failed = a.failed;
          apart = λ k h. ground (
            arith,
            holds-store (key_of p) k t.succeed_pods,
            a.apart k,
            a.unadded k,
            eq_iff (key_of p) k,
          );
          unrefused = λ k h. ground (
            arith,
            holds-store (key_of p) k t.succeed_pods,
            a.unrefused k,
            order.0 k,
            eq_iff (key_of p) k,
          );
          unadded = λ k h. ground (arith, a.unadded k);
        })
  | inr e ↦
      rw (e, add_func)
        (record {
          succeed = a.succeed;
          failed = a.failed;
          apart = a.apart;
          unrefused = λ k h. ground (arith, a.unrefused k);
          unadded = λ k h. ground (arith, a.unadded k);
        })
]

IsApart-updated :
    (p : Pod) (es : List Event) (t : Tracker)
    → InOrder (updated p ∷ es)
    → IsApart (updated p ∷ es) t
    → IsApart es (track_update p t)
unfolding track_update
IsApart-updated p es t order a = elim (Bool-cases (is_bound p)) [
  | inl e ↦
      rw (e, track_update)
        (record {
          succeed = store-NoDup (key_of p) t.succeed_pods a.succeed;
          failed = delete-NoDup (key_of p) t.failed_pods a.failed;
          apart = λ k h. ground (
            arith,
            holds-store (key_of p) k t.succeed_pods,
            holds-delete (key_of p) k t.failed_pods,
            a.apart k,
          );
          unrefused = λ k h.
              ground (arith, holds-store (key_of p) k t.succeed_pods, a.unrefused k, order.0 k);
          unadded = λ k h. ground (arith, holds-delete (key_of p) k t.failed_pods, a.unadded k);
        })
  | inr e ↦
      rw (e, track_update)
        (record {
          succeed = a.succeed;
          failed = store_failed-NoDup (key_of p) p.status.conditions t.failed_pods a.failed;
          apart = λ k h. ground (
            arith,
            holds-store_failed (key_of p) k p.status.conditions t.failed_pods,
            a.apart k h,
            a.unrefused k h,
          );
          unrefused = λ k h. ground (arith, a.unrefused k h);
          unadded = λ k h. ground (
            arith,
            holds-store_failed (key_of p) k p.status.conditions t.failed_pods,
            a.unadded k,
            order.1 k,
          );
        })
]

pub IsApart-track :
    (es : List Event) (t : Tracker) → InOrder es → IsApart es t → IsApart [] (track es t)
IsApart-track [] t order a = a
IsApart-track (added p ∷ es) t order a =
    IsApart-track es (add_func p t) order.2 (IsApart-added p es t order a)
IsApart-track (updated p ∷ es) t order a =
    IsApart-track es (track_update p t) order.2 (IsApart-updated p es t order a)
