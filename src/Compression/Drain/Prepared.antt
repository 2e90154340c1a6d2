-- ===== src/Compression/Drain/Prepared.antt =====
-- The pods of a node that are still to be created: the next one can be, whatever the scheduler has done.
use mathlib.Core.Option.{some-injective}
use native.Mathlib.Decide.{dec_lt}
use kluster_capacity.Base.{
  ℕ, ◌+◌, ◌<◌, ◌≤◌, ◌≡◌, ◌≢◌, refl, sym, ap, ◌∙◌, subst, String, false, List, none, some, get_elem?,
  get_elem?_lt, length, All, arith, if◌then◌else◌,
}
use kluster_capacity.Base.Monad.{Result, ok, modify, >>=-ok}
use kluster_capacity.Kube.{Pod}
use kluster_capacity.Env.{Env}
use kluster_capacity.Env.Laws.{find_pod, same_key, PodLaws}
use kluster_capacity.Pods.{init_pod}
use kluster_capacity.Pods.Laws.{init_pod-unbound, init_pod-namespace}
use kluster_capacity.Compression.Cluster.{create_reset}
use kluster_capacity.Compression.Effects.{world}
use kluster_capacity.Compression.Keys.{
  Distinct, has_key, first_key, first_key-none, same_key_iff, Distinct-get_elem?, All-get_elem?,
}
use kluster_capacity.Compression.Deletion.{Present, has_key_sym}
use kluster_capacity.Compression.Simulator.{Simulator, in_world, create_next_pod}

-- What the scheduler does to the outside, and the pod that it has bound then.
pub record Turn (W : Type 0) : Type 0 where
  pub place : W → W
  pub pod : Pod

module _ (e : Env) where
  open e use {World}

  -- The pods that are still to be created are not there, and have keys and namespaces.
  pub record IsPrepared (s : Simulator World) : Type 0 where
    pub distinct : Distinct s.created_pods
    pub named : All (λ p. p.namespace ≢ "") s.created_pods
    pub absent :
        (i : ℕ) (p : Pod)
        → s.create_pod_index ≤ i
        → get_elem? s.created_pods i ≡ some p
        → find_pod e (world s) p.namespace p.name ≡ none

  -- Since `before`, the first `k` pods of `ps` have been created again, and no pod of another key has changed.
  abbrev pub Tracks : World → List Pod → ℕ → World → Type 0
  Tracks before ps k w =
      Present e k ps w
      × ((ns name : String)
          → first_key ps ns name ≡ none
          → find_pod e w ns name ≡ find_pod e before ns name)

  -- The scheduler changes none but the created pods, and deletes none of them.
  abbrev pub IsFaithful : List Pod → Turn World → Type 0
  IsFaithful ps turn =
      (w : World) (ns name : String)
      → ((r : Pod)
          → find_pod e w ns name ≡ some r
          → (r' : Pod) × (find_pod e (turn.place w) ns name ≡ some r'))
        × (first_key ps ns name ≡ none → find_pod e (turn.place w) ns name ≡ find_pod e w ns name)

  -- The scheduler creates no pod.
  abbrev pub IsHarmless : Turn World → Type 0
  IsHarmless turn =
      (w : World) (ns name : String)
      → find_pod e w ns name ≡ none
      → find_pod e (turn.place w) ns name ≡ none

module _ (e : Env) (laws : PodLaws e) where
  open e use {World}

  -- A pod that is not there can be created, and no pod of another key changes.
  create_reset-total :
      (p : Pod) (w : World)
      → p.namespace ≢ ""
      → find_pod e w p.namespace p.name ≡ none
      → (w' : World) × (create_reset e p w ≡ (ok tt, w'))
        × ((r : Pod) × (find_pod e w' p.namespace p.name ≡ some r))
        × ((ns name : String)
            → has_key p ns name ≡ false
            → find_pod e w' ns name ≡ find_pod e w ns name)
  create_reset-total p w named h =
      let q = init_pod e w p in
      let space : q.namespace ≡ p.namespace = init_pod-namespace e w p named in
      let name' : q.name ≡ p.name = (init_pod-unbound e w p).3 in
      let missing : find_pod e w q.namespace q.name ≡ none =
        (λ i. find_pod e w (space i) (name' i)) ∙ h in
      let (w', created) = laws.create_ok w q missing in
      (
        w',
        rw (subst (λ ns. e.create_pod w ns q ≡ ok w') space created) refl,
        (
          q,
          laws.find-create w w' q p.namespace p.name created
              ∙ ap (λ b. if b then some q else find_pod e w p.namespace p.name)
                  ((λ i. same_key (space i) (name' i) p.namespace p.name)
                    ∙ (same_key_iff p.namespace p.name p.namespace p.name).1 (refl, refl)),
        ),
        λ ns name other.
            laws.find-create w w' q ns name created
            ∙ ap (λ b. if b then some q else find_pod e w ns name)
                ((λ i. same_key (space i) (name' i) ns name) ∙ other),
      )

  Tracks-next :
      (ps : List Pod) (p : Pod) (k : ℕ) (w w' : World)
      → Distinct ps
      → get_elem? ps k ≡ some p
      → (r : Pod) × (find_pod e w' p.namespace p.name ≡ some r)
      → ((ns name : String)
          → has_key p ns name ≡ false
          → find_pod e w' ns name ≡ find_pod e w ns name)
      → Present e k ps w
      → Present e (k + 1) ps w'
  Tracks-next ps p k w w' d at new others there i q lt here = elim (dec_lt i k) [
    | yes below ↦
        let (r, found') = there i q below here in
        let other = has_key_sym q p (Distinct-get_elem? ps i k q p d below here at) in
        (r, others q.namespace q.name other ∙ found')
    | no above ↦
        let same : i ≡ k = omega arith in
        let is_p : p ≡ q =
          some-injective p q (sym at ∙ subst (λ j. get_elem? ps j ≡ some q) same here) in
        subst (λ x. (r : Pod) × (find_pod e w' x.namespace x.name ≡ some r)) is_p new
  ]

  created : World → Simulator World → Simulator World
  created w s = record s {
    framework = record (s.framework) { world = w };
    create_pod_index = s.create_pod_index + 1;
  }

  pub create_next_pod-total :
      (s : Simulator World)
      → IsPrepared e s
      → s.create_pod_index < length s.created_pods
      → (t : Simulator World) × (create_next_pod e s ≡ (ok tt, t))
        × IsPrepared e t
        × ((before : World)
            → Tracks e before s.created_pods s.create_pod_index (world s)
            → Tracks e before t.created_pods t.create_pod_index (world t))
  unfolding create_next_pod created
  create_next_pod-total s prepared lt =
      let (p, at) = get_elem?_lt s.created_pods s.create_pod_index lt in
      let named =
        All-get_elem? (λ q. q.namespace ≢ "") s.created_pods s.create_pod_index prepared.named at in
      let (w', done, new, others) =
        create_reset-total p (world s) named
          (prepared.absent s.create_pod_index p (omega arith) at) in
      (
        created w' s,
        rw (at, create_next_pod)
            (>>=-ok (in_world e (create_reset e p))
              (λ _. modify (λ t. record t { create_pod_index = t.create_pod_index + 1 })) s
              (record s { framework = record (s.framework) { world = w' } })
              (ap
                (λ (x : Result (Unit {0}) × World).
                  (x.0, record s { framework = record (s.framework) { world = x.1 } }))
                done)),
        record {
          distinct = prepared.distinct;
          named = prepared.named;
          absent = λ i q le there.
              others q.namespace q.name (
                Distinct-get_elem? s.created_pods s.create_pod_index i p q prepared.distinct
                  (omega arith) at there)
              ∙ prepared.absent i q (omega arith) there;
        },
        λ before tracks. (
          Tracks-next s.created_pods p s.create_pod_index (world s) w' prepared.distinct at new
              others tracks.0,
          λ ns name h.
              others ns name (first_key-none s.created_pods s.create_pod_index p ns name h at)
              ∙ tracks.1 ns name h,
        ),
      )
