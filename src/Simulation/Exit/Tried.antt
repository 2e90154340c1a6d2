-- ===== src/Simulation/Exit/Tried.antt =====
-- The exit condition AllScheduled: each pod has been bound, or could not be.
use kluster_capacity.Base.{
  ◌+◌, ◌≡◌, ◌↔◌, refl, sym, ◌∙◌, String, Bool, true, false, ◌||◌, List, [], ◌∷◌, ◌++◌, any, all,
  length, length-append, eqb_iff, eq_iff, arith,
}
use kluster_capacity.Base.Dict.{is_some}
use kluster_capacity.Simulation.{
  holds, Tracker, no_pods, exit_reason, exit_when_all_scheduled, Event,
}
use kluster_capacity.Simulation.Exit.{
  NoDup, Within, length-Within, Within-back, track, added_keys, track-count, all_iff,
}
use kluster_capacity.Simulation.Exit.Apart.{is_tried, InOrder, both-track, IsApart-track}

-- Every pod that was added has been tried.
abbrev pub all_tried : List Event → Bool
all_tried es = all (λ k. any (is_tried k) es) (added_keys es)

-- Both sets as one list.
abbrev tried_keys : Tracker → List String
tried_keys t = t.succeed_pods ++ t.failed_pods

holds-append : (k : String) (xs ys : List String) → holds k (xs ++ ys) ≡ (holds k xs || holds k ys)
holds-append k [] ys = refl
holds-append k (x ∷ xs) ys = ground (arith, holds-append k xs ys)

append-NoDup :
    (xs ys : List String)
    → NoDup xs
    → NoDup ys
    → ((k : String) → holds k xs ≡ true → holds k ys ≡ false)
    → NoDup (xs ++ ys)
append-NoDup [] ys d e apart = e
append-NoDup (x ∷ xs) ys d e apart = (
  holds-append x xs ys ∙ ground (arith, apart x, eq_iff x x),
  append-NoDup xs ys d.1 e (λ k h. apart k (ground arith)),
)

exit_reason-all_scheduled :
    (t : Tracker)
    → (is_some (exit_reason exit_when_all_scheduled t) ≡ true)
      ↔ (length t.succeed_pods + length t.failed_pods ≡ t.count)
unfolding exit_reason
exit_reason-all_scheduled t =
    ground (arith, eqb_iff (length t.succeed_pods + length t.failed_pods) t.count)

-- For events in which no two pods are added under one key, only pods that have been added are tried, a pod that has
-- been seen on a node is not refused later, and one that was refused is not added later: with the exit condition
-- AllScheduled there is a reason to stop after them exactly if every pod that was added has been tried, that is seen
-- on a node or refused.
pub exit_reason-all_tried_iff :
    (es : List Event)
    → NoDup (added_keys es)
    → ((k : String) → any (is_tried k) es ≡ true → holds k (added_keys es) ≡ true)
    → InOrder es
    → (is_some (exit_reason exit_when_all_scheduled (track es no_pods)) ≡ true)
      ↔ (all_tried es ≡ true)
exit_reason-all_tried_iff es d known order =
    let t = track es no_pods in
    let keys = added_keys es in
    let tried = tried_keys t in
    let apart = IsApart-track es no_pods order (record {
      succeed = tt;
      failed = tt;
      apart = λ k h. refl;
      unrefused = λ k h. cc h;
      unadded = λ k h. cc h;
    }) in
    let unique = append-NoDup t.succeed_pods t.failed_pods apart.succeed apart.failed apart.apart in
    let count : t.count ≡ 0 + length keys = track-count es no_pods in
    let size = length-append t.succeed_pods t.failed_pods in
    let here =
      λ (k : String). holds-append k t.succeed_pods t.failed_pods ∙ both-track k es no_pods in
    let within : Within tried keys = λ k h. known k (sym (here k) ∙ h) in
    let exit = exit_reason-all_scheduled t in
    let all = all_iff (λ k. any (is_tried k) es) keys in
    (
      λ h.
          let full = exit.0 h in
          all.1 λ k e.
            sym (here k)
            ∙ Within-back tried keys unique within (omega (arith, size, full, count)) k e,
      λ h.
          let more = length-Within keys tried d (λ k e. here k ∙ all.0 h k e) in
          let less = length-Within tried keys unique within in
          exit.1 (omega (arith, size, more, less, count)),
    )
