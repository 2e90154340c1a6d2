-- ===== src/Simulation/Exit.antt =====
-- When the simulation ends by itself.
pub mod Apart
pub mod Tried
use kluster_capacity.Base.{
  ◌+◌, ◌≤◌, ◌≡◌, ◌↔◌, refl, sym, ◌∙◌, subst, String, Bool, true, false, ◌&&◌, ◌||◌, List, [], ◌∷◌,
  any, all, length, eqb_iff, ◌==◌, eq_iff, if◌then◌else◌, arith, Bool-cases, inl, inr,
}
use kluster_capacity.Base.Dict.{is_some}
use kluster_capacity.Simulation.{
  holds, store, Tracker, no_pods, key_of, is_bound, add_func, track_update, exit_reason,
  exit_when_all_succeed, Event, added, updated,
}

-- No key twice.
abbrev pub NoDup : List String → Type 0
NoDup [] = Unit
NoDup (k ∷ ks) = (holds k ks ≡ false) × NoDup ks

pub holds-store :
    (key k : String) (ks : List String) → holds k (store key ks) ≡ (holds k ks || key == k)
unfolding store
holds-store key k ks = elim (Bool-cases (holds key ks)) [
  | inl e ↦ ground (arith, eq_iff key k)
  | inr e ↦ ground (arith, eq_iff key k)
]

pub store-NoDup : (key : String) (ks : List String) → NoDup ks → NoDup (store key ks)
unfolding store
store-NoDup key ks d = elim (Bool-cases (holds key ks)) [ inl e ↦ rw e d | inr e ↦ rw e (e, d) ]

-- The first of the given keys is left out.
abbrev without : String → List String → List String
without x [] = []
without x (y ∷ ys) = if y == x then ys else y ∷ without x ys

length-without :
    (x : String) (ys : List String) → holds x ys ≡ true → length (without x ys) + 1 ≡ length ys
length-without x [] h = ground arith
length-without x (y ∷ ys) h = elim (Bool-cases (y == x)) [
  | inl e ↦ ground arith
  | inr e ↦ ground (arith, length-without x ys)
]

holds-without :
    (x k : String) (ys : List String)
    → holds k ys ≡ true
    → (x == k) ≡ false
    → holds k (without x ys) ≡ true
holds-without x k [] h n = h
holds-without x k (y ∷ ys) h n = elim (Bool-cases (y == x)) [
  | inl e ↦ ground (arith, eq_iff y x, eq_iff y k, eq_iff x k)
  | inr e ↦ ground (arith, holds-without x k ys)
]

abbrev pub Within : List String → List String → Type 0
Within xs ys = (k : String) → holds k xs ≡ true → holds k ys ≡ true

Within-without :
    (x : String) (xs ys : List String)
    → NoDup (x ∷ xs)
    → Within (x ∷ xs) ys
    → Within xs (without x ys)
Within-without x xs ys d h k e = elim (Bool-cases (x == k)) [
  | inl same ↦
      let other = subst (λ j. holds j xs ≡ false) ((eq_iff x k).0 same) d.0 in absurd (ground arith)
  | inr other ↦ holds-without x k ys (h k (ground arith)) other
]

pub length-Within : (xs ys : List String) → NoDup xs → Within xs ys → length xs ≤ length ys
length-Within [] ys d h = omega arith
length-Within (x ∷ xs) ys d h =
    let rest = length-Within xs (without x ys) d.1 (Within-without x xs ys d h) in
    let inside = length-without x ys (h x (ground (arith, eq_iff x x))) in omega arith

cons-Within :
    (k : String) (xs ys : List String) → holds k ys ≡ true → Within xs ys → Within (k ∷ xs) ys
cons-Within k xs ys e h j i = elim (Bool-cases (k == j)) [
  | inl same ↦ subst (λ n. holds n ys ≡ true) ((eq_iff k j).0 same) e
  | inr other ↦ h j (ground arith)
]

-- A set that has as many keys as a list that holds all of them holds all of the list.
pub Within-back :
    (xs ys : List String) → NoDup xs → Within xs ys → length ys ≤ length xs → Within ys xs
Within-back xs ys d h l k e = elim (Bool-cases (holds k xs)) [
  | inl there ↦ there
  | inr missing ↦
      let more = length-Within (k ∷ xs) ys (missing, d) (cons-Within k xs ys e h) in
      absurd (omega arith)
]

-- The events that a simulation has seen, the first one first.
abbrev pub track : List Event → Tracker → Tracker
track [] t = t
track (added p ∷ es) t = track es (add_func p t)
track (updated p ∷ es) t = track es (track_update p t)

abbrev pub added_keys : List Event → List String
added_keys [] = []
added_keys (added p ∷ es) = key_of p ∷ added_keys es
added_keys (updated p ∷ es) = added_keys es

-- An event shows a pod of the key on a node.
abbrev pub is_seen : String → Event → Bool
is_seen k (added p) = is_bound p && key_of p == k
is_seen k (updated p) = is_bound p && key_of p == k

pub holds-track :
    (k : String) (es : List Event) (t : Tracker)
    → holds k (track es t).succeed_pods ≡ (holds k t.succeed_pods || any (is_seen k) es)
unfolding add_func track_update
holds-track k [] t = ground arith
holds-track k (added p ∷ es) t = elim (Bool-cases (is_bound p)) [
  | inl e ↦ ground (arith, holds-track k es (add_func p t), holds-store (key_of p) k t.succeed_pods)
  | inr e ↦ ground (arith, holds-track k es (add_func p t))
]
holds-track k (updated p ∷ es) t = elim (Bool-cases (is_bound p)) [
  | inl e ↦
      ground (arith, holds-track k es (track_update p t), holds-store (key_of p) k t.succeed_pods)
  | inr e ↦ ground (arith, holds-track k es (track_update p t))
]

pub track-NoDup :
    (es : List Event) (t : Tracker) → NoDup t.succeed_pods → NoDup (track es t).succeed_pods
unfolding add_func track_update
track-NoDup [] t d = d
track-NoDup (added p ∷ es) t d = track-NoDup es (add_func p t) (elim (Bool-cases (is_bound p)) [
  | inl e ↦ rw e (store-NoDup (key_of p) t.succeed_pods d)
  | inr e ↦ rw e d
])
track-NoDup (updated p ∷ es) t d =
    track-NoDup es (track_update p t) (elim (Bool-cases (is_bound p)) [
      | inl e ↦ rw e (store-NoDup (key_of p) t.succeed_pods d)
      | inr e ↦ rw e d
    ])

pub track-count :
    (es : List Event) (t : Tracker) → (track es t).count ≡ t.count + length (added_keys es)
unfolding add_func track_update
track-count [] t = omega arith
track-count (added p ∷ es) t = ground (arith, track-count es (add_func p t))
track-count (updated p ∷ es) t = elim (Bool-cases (is_bound p)) [
  | inl e ↦ ground (arith, track-count es (track_update p t))
  | inr e ↦ ground (arith, track-count es (track_update p t))
]

-- Every pod that was added has been seen on a node.
abbrev pub all_seen : List Event → Bool
all_seen es = all (λ k. any (is_seen k) es) (added_keys es)

pub all_iff :
    (f : String → Bool) (ks : List String)
    → (all f ks ≡ true) ↔ ((k : String) → holds k ks ≡ true → f k ≡ true)
all_iff f [] = (λ h k e. absurd (ground arith), λ h. refl)
all_iff f (x ∷ ks) = (
  λ h k e. elim (Bool-cases (x == k)) [
    | inl same ↦ subst (λ n. f n ≡ true) ((eq_iff x k).0 same) (ground arith)
    | inr other ↦ (all_iff f ks).0 (ground arith) k (ground arith)
  ],
  λ h.
      let here = h x (ground (arith, eq_iff x x)) in
      let rest = (all_iff f ks).1 (λ k e. h k (ground arith)) in ground arith,
)

exit_reason-all_succeed :
    (t : Tracker)
    → (is_some (exit_reason exit_when_all_succeed t) ≡ true) ↔ (length t.succeed_pods ≡ t.count)
unfolding exit_reason
exit_reason-all_succeed t = ground (arith, eqb_iff (length t.succeed_pods) t.count)

-- For events in which no two pods are added under one key, and only pods are seen on a node that have been
-- added: with the exit condition AllSucceed there is a reason to stop after them exactly if every pod that was
-- added has been seen on a node.
pub exit_reason-all_seen_iff :
    (es : List Event)
    → NoDup (added_keys es)
    → ((k : String) → any (is_seen k) es ≡ true → holds k (added_keys es) ≡ true)
    → (is_some (exit_reason exit_when_all_succeed (track es no_pods)) ≡ true) ↔ (all_seen es ≡ true)
exit_reason-all_seen_iff es d known =
    let t = track es no_pods in
    let keys = added_keys es in
    let count : t.count ≡ 0 + length keys = track-count es no_pods in
    let within : Within t.succeed_pods keys = λ k h. known k (sym (holds-track k es no_pods) ∙ h) in
    let unique = track-NoDup es no_pods tt in
    let exit = exit_reason-all_succeed t in
    let seen = all_iff (λ k. any (is_seen k) es) keys in
    (
      λ h.
          let full : length t.succeed_pods ≡ t.count = exit.0 h in
          seen.1 λ k e.
            sym (holds-track k es no_pods)
            ∙ Within-back t.succeed_pods keys unique within (omega arith) k e,
      λ h.
          let more =
            length-Within keys t.succeed_pods d (λ k e. holds-track k es no_pods ∙ seen.0 h k e) in
          let less = length-Within t.succeed_pods keys unique within in exit.1 (omega arith),
    )
