-- ===== src/App/Laws.antt =====
-- When a command is reached at all: the configuration file is found, or it does not matter.
use kluster_capacity.Base.{
  String, ◌≡◌, ◌≢◌, ◌↔◌, ◌⊎◌, inl, inr, refl, eq_iff, true, ◌==◌, Bool-cases, arith,
}
use kluster_capacity.Base.Monad.{Result, ok, err, panic, stuck}
use kluster_capacity.App.{Viper, Process, init_config, locate, read_result}

module _ (v : Viper) where
  open v use {State, read_in_config, user_home_dir}

  -- A configuration is read or refused, but reading it does not end the process.
  abbrev pub Reads : Type 0
  Reads = (s : State) → (read_in_config s ≢ panic) × (read_in_config s ≢ stuck)

  read_result-ok :
      (r : Result State) (p : Process State) → r ≢ panic → r ≢ stuck → (read_result v r p).0 ≡ ok tt
  read_result-ok (ok s) p a b = refl
  read_result-ok (err m) p a b = refl
  read_result-ok panic p a b = absurd (a refl)
  read_result-ok stuck p a b = absurd (b refl)

  absent :
      {A : Type 0} {cfg_file : String}
      → cfg_file == "" ≡ true
      → ((home : String) → user_home_dir ≢ ok home)
      → ((cfg_file ≢ "") ⊎ ((home : String) × (user_home_dir ≡ ok home)))
      → A
  absent {cfg_file = cfg_file} e no_home (inl named) = absurd (named ((eq_iff cfg_file "").0 e))
  absent e no_home (inr (home, h)) = absurd (no_home home h)

  -- The configuration does not end the process exactly if the flag config names a file, whether it can be read or not, or
  -- the home directory is known.
  pub init_config-ok_iff :
      (cfg_file : String) (p : Process State)
      → Reads
      → ((init_config v cfg_file p).0 ≡ ok tt)
        ↔ ((cfg_file ≢ "") ⊎ ((home : String) × (user_home_dir ≡ ok home)))
  unfolding init_config locate
  init_config-ok_iff cfg_file p reads = elim (Bool-cases (cfg_file == "")) [
    | inl e ↦ (at_home e user_home_dir refl)
    | inr e ↦ (
      λ h. inl (ground (arith, eq_iff cfg_file "")),
      λ h. rw e (read_result-ok _ _ (reads _).0 (reads _).1),
    )
  ]
    where
      -- Without a file that the flag names, the outcome is that of the home directory.
      at_home :
          cfg_file == "" ≡ true
          → (r : Result String) → user_home_dir ≡ r
          → ((init_config v cfg_file p).0 ≡ ok tt)
            ↔ ((cfg_file ≢ "") ⊎ ((home : String) × (user_home_dir ≡ ok home)))
      at_home e (ok home) h =
          (λ _. inr (home, h), λ _. rw (e, h) (read_result-ok _ _ (reads _).0 (reads _).1))
      at_home e (err m) h =
          let ended : (init_config v cfg_file p).0 ≡ err m = rw (e, h) refl in
          (λ x. absurd (cc (x, ended)), absent e (λ home here. cc (here, h)))
      at_home e panic h =
          let ended : (init_config v cfg_file p).0 ≡ panic = rw (e, h) refl in
          (λ x. absurd (cc (x, ended)), absent e (λ home here. cc (here, h)))
      at_home e stuck h =
          let ended : (init_config v cfg_file p).0 ≡ stuck = rw (e, h) refl in
          (λ x. absurd (cc (x, ended)), absent e (λ home here. cc (here, h)))
