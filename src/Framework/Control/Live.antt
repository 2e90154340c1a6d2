-- ===== src/Framework/Control/Live.antt =====
-- `Stop` does not run out of fuel.
use kluster_capacity.Base.{arith, String, ◌≢◌, refl, ◌==◌}
use kluster_capacity.Base.Live.{Live, >>=-Live, if-Live, pure-Live, lift-Live}
use kluster_capacity.Base.Monad.{Result, ok, err, panic, stuck, ◌>>=◌, ◌>>◌, pure, lift, get}
use kluster_capacity.Env.{Env, write}
use kluster_capacity.Env.Answers.{Answers, write-Live}
use kluster_capacity.Framework.{Framework, on_world}
use kluster_capacity.Framework.Control.{
  stop, prepare, finish, take_stock, save, save_as_set, items, open_or_crash,
}

module _ (e : Env) (answers : Answers e) {H : Type 0} where
  open e use {World}

  items-Live : {A : Type 0} (r : Result A) → r ≢ stuck → Live (items e {H = H} r)
  items-Live (ok a) h f k = cc k
  items-Live (err m) h f k = cc k
  items-Live panic h f k = cc k
  items-Live stuck h f k = h refl

  take_stock-Live : (reason : String) → Live (take_stock e {H = H} reason)
  unfolding take_stock
  take_stock-Live reason f = ground (arith, answers.list_nodes f.world, answers.list_pods f.world)

  open_or_crash-Live : (path : String) → Live (open_or_crash e {H = H} path)
  open_or_crash-Live path f = ground (arith, answers.open_file f.world path)

  save-Live : (path : String) → Live (save e {H = H} path)
  unfolding save
  save-Live path =
      let rest = λ (f : Framework World H).
        lift {S = Framework World H} (e.marshal_status f.status) >>= λ bytes.
        on_world (write (λ w. e.write_file w path bytes)) in
      >>=-Live (open_or_crash e path) (λ _. get >>= rest) (open_or_crash-Live path)
        (λ _.
          >>=-Live get rest (λ f k. cc k)
            (λ f.
              >>=-Live (lift (e.marshal_status f.status))
                (λ bytes. on_world (write (λ w. e.write_file w path bytes)))
                (lift-Live (e.marshal_status f.status) (answers.marshal_status f.status))
                (λ bytes g.
                  write-Live (λ w. e.write_file w path bytes) (λ w. answers.write_file w path bytes)
                    g.world)))

  finish-Live : Live (finish e {H = H})
  unfolding finish
  finish-Live f = ground arith

  pub stop-Live : (reason : String) → Live (stop e {H = H} reason)
  unfolding stop prepare
  stop-Live reason f =
      if-Live f.stopped (pure tt) (prepare e reason >> finish e) (pure-Live tt)
        (>>=-Live (prepare e reason) (λ _. finish e)
          (>>=-Live (take_stock e reason) (λ _. save_as_set e) (take_stock-Live reason)
            (λ _ g.
              if-Live (g.save_to == "") (pure tt) (save e g.save_to) (pure-Live tt)
                (save-Live g.save_to) g))
          (λ _. finish-Live))
        f
