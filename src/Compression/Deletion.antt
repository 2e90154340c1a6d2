-- ===== src/Compression/Deletion.antt =====
-- The first loop of updatePodsFromCreatedPods: the pods that were created again are deleted.
use kluster_capacity.Base.{
  ℕ, zero, suc, ◌<◌, ◌≤◌, ◌≡◌, refl, ◌∙◌, String, false, List, none, some, if◌then◌else◌, get_elem?,
  get_elem?_lt, length, arith,
}
use kluster_capacity.Base.Monad.{ok, >>=-ok}
use kluster_capacity.Kube.{Pod}
use kluster_capacity.Env.{Env}
use kluster_capacity.Env.Laws.{find_pod, PodLaws}
use kluster_capacity.Compression.Cluster.{delete_down_from, delete_of}
use kluster_capacity.Compression.Keys.{
  has_key, key_below, Distinct, same_key_iff, Distinct-get_elem?,
}

pub has_key_sym :
    (p q : Pod) → has_key p q.namespace q.name ≡ false → has_key q p.namespace p.name ≡ false
has_key_sym p q h = ground (
  arith,
  same_key_iff p.namespace p.name q.namespace q.name,
  same_key_iff q.namespace q.name p.namespace p.name,
)

module _ (e : Env) where
  open e use {World}

  -- `w'` is `w` without the pod of one key.
  abbrev pub Removed : Pod → World → World → Type 0
  Removed p w w' =
      (ns name : String)
      → find_pod e w' ns name ≡ (if has_key p ns name then none else find_pod e w ns name)

  -- The pods of `ps` below `k` are there.
  abbrev pub Present : ℕ → List Pod → World → Type 0
  Present k ps w =
      (i : ℕ) (p : Pod)
      → i < k
      → get_elem? ps i ≡ some p
      → (r : Pod) × (find_pod e w p.namespace p.name ≡ some r)

  abbrev pub Emptied : ℕ → List Pod → World → World → Type 0
  Emptied k ps w w' =
      (ns name : String)
      → find_pod e w' ns name ≡ (if key_below k ps ns name then none else find_pod e w ns name)

module _ (e : Env) (laws : PodLaws e) where
  open e use {World}

  pub delete_of_ok :
      (p r : Pod) (w : World)
      → find_pod e w p.namespace p.name ≡ some r
      → (w' : World) × (delete_of e p w ≡ (ok tt, w')) × Removed e p w w'
  delete_of_ok p r w h =
      let (w', done) = laws.delete_ok w p.namespace p.name r h in
      (w', rw done, λ ns name. laws.find-delete w w' p.namespace p.name ns name done)

  Present-step :
      (k : ℕ) (ps : List Pod) (p : Pod) (w w1 : World)
      → Distinct ps
      → get_elem? ps k ≡ some p
      → Removed e p w w1
      → Present e (suc k) ps w
      → Present e k ps w1
  Present-step k ps p w w1 d at gone there i q lt ei =
      let (s, was) = there i q (omega arith) ei in
      let other = has_key_sym q p (Distinct-get_elem? ps i k q p d lt ei at) in
      (s, gone q.namespace q.name ∙ rw other was)

  Emptied-step :
      (k : ℕ) (ps : List Pod) (p : Pod) (w w1 w2 : World)
      → get_elem? ps k ≡ some p
      → Removed e p w w1
      → Emptied e k ps w1 w2
      → Emptied e (suc k) ps w w2
  Emptied-step k ps p w w1 w2 at gone rest ns name =
      rw at (ground (arith, gone ns name, rest ns name))

  delete_down_from-step :
      (k : ℕ) (ps : List Pod) (p : Pod) (w w1 w2 : World)
      → get_elem? ps k ≡ some p
      → delete_of e p w ≡ (ok tt, w1)
      → delete_down_from e k ps w1 ≡ (ok tt, w2)
      → delete_down_from e (suc k) ps w ≡ (ok tt, w2)
  unfolding delete_down_from
  delete_down_from-step k ps p w w1 w2 at one rest =
      rw (at, delete_down_from)
        (>>=-ok (delete_of e p) (λ _. delete_down_from e k ps) w w1 one ∙ rest)

  pub delete_down_from_ok :
      (k : ℕ) (ps : List Pod) (w : World)
      → k ≤ length ps
      → Distinct ps
      → Present e k ps w
      → (w' : World) × (delete_down_from e k ps w ≡ (ok tt, w')) × Emptied e k ps w w'
  unfolding delete_down_from
  delete_down_from_ok zero ps w h d there = (w, refl, λ ns name. refl)
  delete_down_from_ok (suc k) ps w h d there =
      let (p, at) = get_elem?_lt ps k h in
      let (r, found) = there k p (omega arith) at in
      let (w1, one, gone) = delete_of_ok p r w found in
      let (w2, rest, emptied) =
        delete_down_from_ok k ps w1 (omega arith) d (Present-step k ps p w w1 d at gone there) in
      (
        w2,
        delete_down_from-step k ps p w w1 w2 at one rest,
        Emptied-step k ps p w w1 w2 at gone emptied,
      )
