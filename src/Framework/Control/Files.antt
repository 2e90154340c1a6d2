-- ===== src/Framework/Control/Files.antt =====
-- Of what is outside, `Stop` changes files alone.
use kluster_capacity.Base.{String, ◌≡◌, refl, ◌==◌, arith, sym, subst}
use kluster_capacity.Base.Frame.{IsPreorder, Keeps, >>=-Keeps, if-Keeps}
use kluster_capacity.Base.Safe.{Safe}
use kluster_capacity.Base.Monad.{Result, ok, err, panic, stuck, ◌>>=◌, ◌>>◌, pure, lift, get}
use kluster_capacity.Env.{Env, write, written}
use kluster_capacity.Env.Answers.{Answers}
use kluster_capacity.Framework.{Framework, on_world}
use kluster_capacity.Framework.Control.{
  stop, prepare, finish, take_stock, save, save_as_set, open_or_crash,
}
use kluster_capacity.Framework.Control.Live.{stop-Live}

-- What holds of the outside whatever becomes of files.
pub record FileProof (e : Env) (P : e.World → Type 0) : Type 0 where
  pub open_file : (w w' : e.World) (path : String) → e.open_file w path ≡ ok w' → P w → P w'
  pub write_file :
      (w w' : e.World) (path text : String) → e.write_file w path text ≡ ok w' → P w → P w'

module _ (e : Env) {H : Type 0} (P : e.World → Type 0) (proof : FileProof e P) where
  open e use {World}

  abbrev Carries : Framework World H → Framework World H → Type 0
  Carries f g = P f.world → P g.world

  carries : IsPreorder Carries
  carries = record { same = λ f p. p; then' = λ f g h p q x. q (p x) }

  take_stock-world :
      (reason : String) (f : Framework World H) → (take_stock e reason f).1.world ≡ f.world
  unfolding take_stock
  take_stock-world reason f = ground arith

  finish-world : (f : Framework World H) → (finish e f).1.world ≡ f.world
  unfolding finish
  finish-world f = ground arith

  open_or_crash-Carries : (path : String) → Keeps Carries (open_or_crash e path)
  open_or_crash-Carries path f p = go (e.open_file f.world path) refl
    where
      go :
          (r : Result World)
          → e.open_file f.world path ≡ r
          → P
              (elim r as (λ x. Result (Unit {0}) × Framework World H) [
                | ok w ↦ (ok tt, record f { world = w })
                | err m ↦ (panic, f)
                | panic ↦ (panic, f)
                | stuck ↦ (stuck, f)
              ]).1.world
      go (ok w) h = proof.open_file f.world w path h p
      go (err m) h = p
      go panic h = p
      go stuck h = p

  write_file-Carries :
      (path text : String)
      → Keeps Carries (on_world {H = H} (write (λ w. e.write_file w path text)))
  write_file-Carries path text f p = go (e.write_file f.world path text) refl
    where
      go : (r : Result World) → e.write_file f.world path text ≡ r → P (written f.world r).1
      go (ok w) h = proof.write_file f.world w path text h p
      go (err m) h = p
      go panic h = p
      go stuck h = p

  save-Carries : (path : String) → Keeps Carries (save e {H = H} path)
  unfolding save
  save-Carries path =
      let rest = λ (f : Framework World H).
        lift {S = Framework World H} (e.marshal_status f.status) >>= λ bytes.
        on_world (write (λ w. e.write_file w path bytes)) in
      >>=-Keeps carries (open_or_crash e path) (λ _. get >>= rest) (open_or_crash-Carries path)
        (λ _.
          >>=-Keeps carries get rest (λ f p. p)
            (λ f.
              >>=-Keeps carries (lift (e.marshal_status f.status))
                (λ bytes. on_world (write (λ w. e.write_file w path bytes))) (λ g p. p)
                (λ bytes. write_file-Carries path bytes)))

  pub stop-Carries : (reason : String) → Keeps Carries (stop e {H = H} reason)
  unfolding stop prepare
  stop-Carries reason f =
      if-Keeps carries f.stopped (pure tt) (prepare e reason >> finish e) (λ g p. p)
        (>>=-Keeps carries (prepare e reason) (λ _. finish e)
          (>>=-Keeps carries (take_stock e reason) (λ _. save_as_set e)
            (λ g p. subst P (sym (take_stock-world reason g)) p)
            (λ _ g.
              if-Keeps carries (g.save_to == "") (pure tt) (save e g.save_to) (λ h p. p)
                (save-Carries g.save_to) g))
          (λ _ g p. subst P (sym (finish-world g)) p))
        f

  pub stop-Safe : Answers e → (reason : String) → Safe (λ f. P f.world) (stop e {H = H} reason)
  stop-Safe answers reason f p = (stop-Live e answers reason f, stop-Carries reason f p)
