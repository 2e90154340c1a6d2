-- ===== src/Commands/Estimation/Laws.antt =====
-- The pods that valid options name.
use kluster_capacity.Base.{
  ◌≡◌, ◌≢◌, ◌↔◌, ◌⊎◌, inl, inr, refl, Bool, true, List, [], ◌∷◌, ◌++◌, append-nil, append_assoc,
  Bool-cases, if◌then◌else◌, sym, ap, ◌∙◌, subst,
}
use kluster_capacity.Base.Monad.{Result, ok, Action, ◌>>=◌, lift, >>=-eq-ok, >>=-ok}
use kluster_capacity.Kube.{Pod}
use kluster_capacity.Config.{Packages, RestConfig, build_rest_config}
use kluster_capacity.Commands.Estimation.{CapacityEstimationOptions, is_nil}
use kluster_capacity.Commands.Estimation.Spec.{
  Web, add_all, add_pod, get_pod_from_template, named_pod, from_cluster, parse_api_spec,
}
use kluster_capacity.NamespaceNames.{NamespaceName}

-- Each source has its pod, in the order of the sources.
abbrev pub Loads : {A : Type 0} → (A → Result Pod) → List A → List Pod → Type 0
Loads f [] ps = ps ≡ []
Loads f (x ∷ xs) ps = (p : Pod) × (qs : List Pod) × (ps ≡ p ∷ qs) × (f x ≡ ok p) × Loads f xs qs

add_all-ok :
    {A : Type 0} (f : A → Result Pod) (xs : List A) (ps qs : List Pod)
    → add_all f xs ps ≡ (ok tt, qs)
    → (rs : List Pod) × (qs ≡ ps ++ rs) × Loads f xs rs
unfolding add_all
add_all-ok f [] ps qs h =
    ([], ap (λ (x : Result (Unit {0}) × List Pod). x.1) (sym h) ∙ sym (append-nil ps), refl)
add_all-ok f (x ∷ xs) ps qs h =
    let (u, ps1, one, rest) = >>=-eq-ok (lift (f x) >>= add_pod) (λ _. add_all f xs) ps h in
    let (p, ps0, found, added) = >>=-eq-ok (lift (f x)) add_pod ps one in
    let (rs, same, loads) = add_all-ok f xs ps1 qs rest in
    let here : f x ≡ ok p = ap (λ (y : Result Pod × List Pod). y.0) found in
    let before : ps ≡ ps0 = ap (λ (y : Result Pod × List Pod). y.1) found in
    let then' : ps0 ++ (p ∷ []) ≡ ps1 = ap (λ (y : Result (Unit {0}) × List Pod). y.1) added in
    (
      p ∷ rs,
      same
          ∙ ap (λ l. l ++ rs) (sym then' ∙ ap (λ l. l ++ (p ∷ [])) (sym before))
          ∙ append_assoc ps (p ∷ []) rs,
      (p, rs, refl, here, loads),
    )

add_all-Loads :
    {A : Type 0} (f : A → Result Pod) (xs : List A) (ps rs : List Pod)
    → Loads f xs rs
    → add_all f xs ps ≡ (ok tt, ps ++ rs)
unfolding add_all
add_all-Loads f [] ps rs h = ap (λ l. (ok tt, l)) (sym (append-nil ps) ∙ ap (λ l. ps ++ l) (sym h))
add_all-Loads f (x ∷ xs) ps rs (p, qs, same, here, loads) =
    >>=-ok (lift (f x) >>= add_pod) (λ _. add_all f xs) ps (ps ++ (p ∷ []))
      (>>=-ok (lift (f x)) add_pod ps ps (ap (λ r. (r, ps)) here))
    ∙ add_all-Loads f xs (ps ++ (p ∷ [])) qs loads
    ∙ ap (λ l. (ok tt, l)) (append_assoc ps (p ∷ []) qs ∙ ap (λ l. ps ++ l) (sym same))

is_nil_iff : {A : Type 0} (xs : List A) → (is_nil xs ≡ true) ↔ (xs ≡ [])
is_nil_iff [] = (λ h. refl, λ h. refl)
is_nil_iff (x ∷ xs) = (λ h. cc h, λ h. cc h)

module _ (web : Web) (packages : Packages) where
  -- The pods of the options: those of the templates if there are any, else those of the cluster.
  abbrev pub IsPods : CapacityEstimationOptions → List Pod → Type 0
  IsPods opt pods =
      ((opt.pods_from_template ≢ [])
        × Loads (get_pod_from_template web) opt.pods_from_template pods)
      ⊎ ((opt.pods_from_template ≡ [])
          × (cfg : RestConfig) × (build_rest_config packages opt.base.kube_config ≡ ok cfg)
          × (web.new_for_config cfg ≡ ok tt)
          × Loads (named_pod web cfg) opt.pods_from_cluster pods)

  from_cluster-ok :
      (names : List NamespaceName) (cfg : RestConfig) (pods : List Pod)
      → from_cluster web names cfg [] ≡ (ok tt, pods)
      → (web.new_for_config cfg ≡ ok tt) × Loads (named_pod web cfg) names pods
  from_cluster-ok names cfg pods h =
      let (client, s, made, rest) =
        >>=-eq-ok (lift (web.new_for_config cfg)) (λ _. add_all (named_pod web cfg) names) [] h in
      let here : web.new_for_config cfg ≡ ok client =
        ap (λ (y : Result (Unit {0}) × List Pod). y.0) made in
      let same : [] ≡ s = ap (λ (y : Result (Unit {0}) × List Pod). y.1) made in
      let (rs, all, loads) = add_all-ok (named_pod web cfg) names s pods rest in
      (
        here,
        subst (Loads (named_pod web cfg) names) (sym (all ∙ ap (λ l. l ++ rs) (sym same))) loads,
      )

  abbrev branch : CapacityEstimationOptions → Bool → Action (List Pod) (Unit {0})
  branch opt b =
      if b
      then lift (build_rest_config packages opt.base.kube_config)
        >>= from_cluster web opt.pods_from_cluster
      else add_all (get_pod_from_template web) opt.pods_from_template

  -- The specification is parsed without an error exactly if every template gives a pod, or if there is no template
  -- and every named pod is found in the cluster. The pods are these, in the order of their sources.
  pub parse_api_spec_iff :
      (opt : CapacityEstimationOptions) (pods : List Pod)
      → (parse_api_spec web packages opt [] ≡ (ok tt, pods)) ↔ IsPods opt pods
  unfolding parse_api_spec
  parse_api_spec_iff opt pods = elim (Bool-cases (is_nil opt.pods_from_template)) [
    | inl e ↦ (
      λ h.
          let (cfg, s, built, rest) =
            >>=-eq-ok (lift (build_rest_config packages opt.base.kube_config))
              (from_cluster web opt.pods_from_cluster) []
              (subst (λ b. branch opt b [] ≡ (ok tt, pods)) e h) in
          let here : build_rest_config packages opt.base.kube_config ≡ ok cfg =
            ap (λ (y : Result RestConfig × List Pod). y.0) built in
          let same : [] ≡ s = ap (λ (y : Result RestConfig × List Pod). y.1) built in
          let (client, loads) = from_cluster-ok opt.pods_from_cluster cfg pods (
            subst (λ l. from_cluster web opt.pods_from_cluster cfg l ≡ (ok tt, pods)) (sym same)
              rest) in
          inr ((is_nil_iff opt.pods_from_template).0 e, cfg, here, client, loads),
      λ h. elim h [
        | inl (some', loads) ↦ absurd (some' ((is_nil_iff opt.pods_from_template).0 e))
        | inr (none', cfg, built, client, loads) ↦
            rw (e, built, client)
              (add_all-Loads (named_pod web cfg) opt.pods_from_cluster [] pods loads)
      ],
    )
    | inr e ↦ (
      λ h.
          let (rs, same, loads) =
            add_all-ok (get_pod_from_template web) opt.pods_from_template [] pods
              (subst (λ b. branch opt b [] ≡ (ok tt, pods)) e h) in
          inl (
            λ none'. cc (sym e ∙ (is_nil_iff opt.pods_from_template).1 none'),
            subst (Loads (get_pod_from_template web) opt.pods_from_template) (sym same) loads,
          ),
      λ h. elim h [
        | inl (some', loads) ↦
            rw e (add_all-Loads (get_pod_from_template web) opt.pods_from_template [] pods loads)
        | inr (none', cfg, built, client, loads) ↦
            absurd (cc (sym e ∙ (is_nil_iff opt.pods_from_template).1 none'))
      ],
    )
  ]
