-- ===== src/Compression/Drain/Deleted.antt =====
-- Deleting the pods of a node that can be moved succeeds where the pods are there.
use kluster_capacity.Base.{
  ◌≡◌, refl, ap, ◌∙◌, String, Bool, false, List, [], ◌∷◌, none, some, keep_if, All, arith,
  if◌then◌else◌, Bool-cases, inl, inr,
}
use kluster_capacity.Base.Monad.{ok, ◌>>=◌, pure, >>=-ok}
use kluster_capacity.Kube.{Pod}
use kluster_capacity.Env.{Env}
use kluster_capacity.Env.Laws.{find_pod, PodLaws}
use kluster_capacity.Compression.Cluster.{delete_of, delete_movable, is_movable}
use kluster_capacity.Compression.Deletion.{Removed, delete_of_ok}
use kluster_capacity.Compression.Keys.{Distinct, has_key, first_key, first_key-none, same_key_iff}

pub All-keep_if :
    (P : Pod → Type 0) (f : Pod → Bool) (ps : List Pod) → All P ps → All P (keep_if f ps)
All-keep_if P f [] h = tt
All-keep_if P f (p ∷ ps) h = elim (Bool-cases (f p)) [
  | inl e ↦ rw e (h.0, All-keep_if P f ps h.1)
  | inr e ↦ rw e (All-keep_if P f ps h.1)
]

pub keep_if-Distinct : (f : Pod → Bool) (ps : List Pod) → Distinct ps → Distinct (keep_if f ps)
keep_if-Distinct f [] d = tt
keep_if-Distinct f (p ∷ ps) d = elim (Bool-cases (f p)) [
  | inl e ↦
      rw e (
        All-keep_if (λ q. has_key p q.namespace q.name ≡ false) f ps d.0,
        keep_if-Distinct f ps d.1,
      )
  | inr e ↦ rw e (keep_if-Distinct f ps d.1)
]

first_key-tail :
    (p : Pod) (qs : List Pod) (ns name : String)
    → first_key (p ∷ qs) ns name ≡ none
    → first_key qs ns name ≡ none
first_key-tail p qs ns name h = ground arith

module _ (e : Env) where
  open e use {World}

  abbrev pub ArePresent : List Pod → World → Type 0
  ArePresent ps w = All (λ p. find_pod e w p.namespace p.name ≡ some p) ps

  abbrev pub AreAbsent : List Pod → World → Type 0
  AreAbsent ps w = All (λ p. find_pod e w p.namespace p.name ≡ none) ps

  -- No pod is there that was not.
  abbrev pub Fewer : World → World → Type 0
  Fewer w w' = (ns name : String) → find_pod e w ns name ≡ none → find_pod e w' ns name ≡ none

  Removed-ArePresent :
      (p : Pod) (ps : List Pod) (w w' : World)
      → Removed e p w w'
      → All (λ q. has_key p q.namespace q.name ≡ false) ps
      → ArePresent ps w
      → ArePresent ps w'
  Removed-ArePresent p [] w w' gone d h = tt
  Removed-ArePresent p (q ∷ ps) w w' gone d h =
      (gone q.namespace q.name ∙ rw d.0 h.0, Removed-ArePresent p ps w w' gone d.1 h.1)

  Removed-Fewer : (p : Pod) (w w' : World) → Removed e p w w' → Fewer w w'
  Removed-Fewer p w w' gone ns name h = ground (arith, gone ns name)

  Removed-self :
      (p : Pod) (w w' : World) → Removed e p w w' → find_pod e w' p.namespace p.name ≡ none
  Removed-self p w w' gone =
      ground (arith, gone p.namespace p.name, same_key_iff p.namespace p.name p.namespace p.name)

  -- Pods of other keys stay as they are.
  abbrev pub SameOutside : List Pod → World → World → Type 0
  SameOutside ps w w' =
      (ns name : String)
      → first_key ps ns name ≡ none
      → find_pod e w' ns name ≡ find_pod e w ns name

  SameOutside-step :
      (p : Pod) (qs : List Pod) (w w1 w2 : World)
      → Removed e p w w1
      → SameOutside qs w1 w2
      → SameOutside (p ∷ qs) w w2
  SameOutside-step p qs w w1 w2 gone rest ns name h =
      rest ns name (first_key-tail p qs ns name h)
      ∙ gone ns name
      ∙ ap (λ b. if b then none else find_pod e w ns name)
          (first_key-none (p ∷ qs) 0 p ns name h refl)

  module _ (laws : PodLaws e) where
    pub delete_movable-total :
        (ps : List Pod) (w : World)
        → Distinct ps
        → ArePresent ps w
        → (w' : World) × (delete_movable e ps w ≡ (ok (keep_if is_movable ps), w'))
          × Fewer w w'
          × AreAbsent (keep_if is_movable ps) w'
          × SameOutside (keep_if is_movable ps) w w'
    unfolding delete_movable
    delete_movable-total [] w d h = (w, refl, (λ ns name x. x), tt, (λ ns name x. refl))
    delete_movable-total (p ∷ ps) w d h = elim (Bool-cases (is_movable p)) [
      | inl e' ↦
          let (w1, one, gone) = delete_of_ok e laws p p w h.0 in
          let (w2, rest, fewer, absent, outside) =
            delete_movable-total ps w1 d.1 (Removed-ArePresent p ps w w1 gone d.0 h.1) in
          let cons = λ (qs : List Pod). pure {S = World} (p ∷ qs) in
          (
            w2,
            rw e' (
                >>=-ok (delete_of e p) (λ u. delete_movable e ps >>= cons) w w1 one
                ∙ >>=-ok (delete_movable e ps) cons w1 w2 rest),
            (λ ns name x. fewer ns name (Removed-Fewer p w w1 gone ns name x)),
            rw e' (fewer p.namespace p.name (Removed-self p w w1 gone), absent),
            rw e' (SameOutside-step p (keep_if is_movable ps) w w1 w2 gone outside),
          )
      | inr e' ↦
          let (w', rest, fewer, absent, outside) = delete_movable-total ps w d.1 h.1 in
          (w', rw e' rest, fewer, rw e' absent, rw e' outside)
    ]
