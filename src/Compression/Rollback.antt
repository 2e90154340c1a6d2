-- ===== src/Compression/Rollback.antt =====
-- updatePodsFromCreatedPods: a node whose pods do not fit elsewhere gets them back as they were.
use native.Mathlib.Decide.{dec_lt}
use kluster_capacity.Base.{
  ℕ, ◌≤◌, ◌≡◌, refl, sym, ◌∙◌, String, Bool, true, false, List, [], ◌∷◌, Option, none, some,
  if◌then◌else◌, get_elem?, length, All, arith, inl, inr, Option-cases,
}
use kluster_capacity.Base.Monad.{ok, >>=-ok}
use kluster_capacity.Kube.{Pod}
use kluster_capacity.Env.{Env}
use kluster_capacity.Env.Laws.{find_pod, PodLaws}
use kluster_capacity.Compression.Cluster.{
  delete_down_from, create_all, update_pods_from_created_pods, create_of,
}
use kluster_capacity.Compression.Keys.{
  has_key, first_key, key_below, Distinct, same_key_iff, All-get_elem?, get_elem?-All,
  key_below_of_get_elem?, key_below-first_key, first_key-some,
}
use kluster_capacity.Compression.Deletion.{Present, Emptied, delete_down_from_ok}

none_either : (b : Bool) → ◌≡◌ {A = Option Pod} (if b then none else none) none
none_either true = refl
none_either false = refl

module _ (e : Env) (laws : PodLaws e) where
  open e use {World}

  -- `w'` is `w` with one pod more.
  abbrev Added : Pod → World → World → Type 0
  Added p w w' =
      (ns name : String)
      → find_pod e w' ns name ≡ (if has_key p ns name then some p else find_pod e w ns name)

  create_of_ok :
      (p : Pod) (w : World)
      → find_pod e w p.namespace p.name ≡ none
      → (w' : World) × (create_of e p w ≡ (ok tt, w')) × Added p w w'
  create_of_ok p w h =
      let (w', done) = laws.create_ok w p h in
      (w', rw done, λ ns name. laws.find-create w w' p ns name done)

  abbrev or_find : Option Pod → Option Pod → Option Pod
  or_find none was = was
  or_find (some p) was = some p

  abbrev Restored : List Pod → World → World → Type 0
  Restored ps w w' =
      (ns name : String)
      → find_pod e w' ns name ≡ or_find (first_key ps ns name) (find_pod e w ns name)

  abbrev Absent : List Pod → World → Type 0
  Absent ps w = All (λ q. find_pod e w q.namespace q.name ≡ none) ps

  Absent-step :
      (p : Pod) (ps : List Pod) (w w1 : World)
      → All (λ q. has_key p q.namespace q.name ≡ false) ps
      → Added p w w1
      → Absent ps w
      → Absent ps w1
  Absent-step p [] w w1 d more absent = tt
  Absent-step p (q ∷ ps) w w1 d more absent =
      (more q.namespace q.name ∙ rw d.0 absent.0, Absent-step p ps w w1 d.1 more absent.1)

  first_key-other :
      (p : Pod) (ps : List Pod) (ns name : String)
      → All (λ q. has_key p q.namespace q.name ≡ false) ps
      → has_key p ns name ≡ true
      → first_key ps ns name ≡ none
  first_key-other p [] ns name d h = refl
  first_key-other p (q ∷ ps) ns name d h = ground (
    arith,
    first_key-other p ps ns name d.1,
    same_key_iff p.namespace p.name ns name,
    same_key_iff q.namespace q.name ns name,
    same_key_iff p.namespace p.name q.namespace q.name,
  )

  Restored-step :
      (p : Pod) (ps : List Pod) (w w1 w2 : World)
      → All (λ q. has_key p q.namespace q.name ≡ false) ps
      → Added p w w1
      → Restored ps w1 w2
      → Restored (p ∷ ps) w w2
  Restored-step p ps w w1 w2 d more rest ns name =
      ground (arith, more ns name, rest ns name, first_key-other p ps ns name d)

  create_all-step :
      (p : Pod) (ps : List Pod) (w w1 w2 : World)
      → create_of e p w ≡ (ok tt, w1)
      → create_all e ps w1 ≡ (ok tt, w2)
      → create_all e (p ∷ ps) w ≡ (ok tt, w2)
  unfolding create_all
  create_all-step p ps w w1 w2 one rest =
      >>=-ok (create_of e p) (λ _. create_all e ps) w w1 one ∙ rest

  create_all_ok :
      (ps : List Pod) (w : World)
      → Distinct ps
      → Absent ps w
      → (w' : World) × (create_all e ps w ≡ (ok tt, w')) × Restored ps w w'
  unfolding create_all
  create_all_ok [] w d absent = (w, refl, λ ns name. refl)
  create_all_ok (p ∷ ps) w d absent =
      let (w1, one, more) = create_of_ok p w absent.0 in
      let (w2, rest, restored) =
        create_all_ok ps w1 d.1 (Absent-step p ps w w1 d.0 more absent.1) in
      (w2, create_all-step p ps w w1 w2 one rest, Restored-step p ps w w1 w2 d.0 more restored)

  Emptied-Absent :
      (k : ℕ) (ps : List Pod) (w w1 : World)
      → Emptied e k ps w w1
      → ((i : ℕ) (p : Pod)
          → k ≤ i
          → get_elem? ps i ≡ some p
          → find_pod e w p.namespace p.name ≡ none)
      → Absent ps w1
  Emptied-Absent k ps w w1 emptied missing =
      get_elem?-All (λ q. find_pod e w1 q.namespace q.name ≡ none) ps
        λ i p at. emptied p.namespace p.name ∙ elim (dec_lt i k) [
          | yes lt ↦ rw (key_below_of_get_elem? k i ps p lt at)
          | no ge ↦
              rw (missing i p (omega arith) at) (none_either (key_below k ps p.namespace p.name))
        ]

  unchanged :
      (before now w1 : World) (k : ℕ) (ps : List Pod)
      → All (λ p. find_pod e before p.namespace p.name ≡ some p) ps
      → Emptied e k ps now w1
      → ((ns name : String)
          → first_key ps ns name ≡ none
          → find_pod e now ns name ≡ find_pod e before ns name)
      → (ns name : String)
      → or_find (first_key ps ns name) (find_pod e w1 ns name) ≡ find_pod e before ns name
  unchanged before now w1 k ps was emptied outside ns name =
      elim (Option-cases (first_key ps ns name)) [
        | inl eq ↦
            rw eq (emptied ns name ∙ rw (key_below-first_key k ps ns name eq) (outside ns name eq))
        | inr (q, eq) ↦
            let (i, at, key) = first_key-some ps ns name eq in
            let same = (same_key_iff q.namespace q.name ns name).0 key in
            rw eq (
              rw (← same.0, ← same.1)
                (sym
                  (All-get_elem? (λ p. find_pod e before p.namespace p.name ≡ some p) ps i was at)))
      ]

  -- The rollback of a node. `before` is the state in which the node was selected, and `ps` the pods
  -- that were deleted from it. Since then the first `k` have been created again, so that pods of their names
  -- are there, the others have not, and no other pod has changed. Then the rollback reports no
  -- error, and leaves every pod as it was before.
  pub update_pods_from_created_pods-restores :
      (before now : World) (k : ℕ) (ps : List Pod)
      → k ≤ length ps
      → Distinct ps
      → All (λ p. find_pod e before p.namespace p.name ≡ some p) ps
      → Present e k ps now
      → ((i : ℕ) (p : Pod)
          → k ≤ i
          → get_elem? ps i ≡ some p
          → find_pod e now p.namespace p.name ≡ none)
      → ((ns name : String)
          → first_key ps ns name ≡ none
          → find_pod e now ns name ≡ find_pod e before ns name)
      → (after : World) × (update_pods_from_created_pods e k ps now ≡ (ok tt, after))
        × ((ns name : String) → find_pod e after ns name ≡ find_pod e before ns name)
  unfolding update_pods_from_created_pods
  update_pods_from_created_pods-restores before now k ps h d was there missing outside =
      let (w1, deleted, emptied) = delete_down_from_ok e laws k ps now h d there in
      let (w2, created, restored) =
        create_all_ok ps w1 d (Emptied-Absent k ps now w1 emptied missing) in
      (
        w2,
        >>=-ok (delete_down_from e k ps) (λ _. create_all e ps) now w1 deleted ∙ created,
        λ ns name. restored ns name ∙ unchanged before now w1 k ps was emptied outside ns name,
      )
