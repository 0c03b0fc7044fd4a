-- ===== src/Pipeline/Keeps.antt =====
-- Invariants of actions: one rule for each way to build an action. An action keeps `P` whether it
-- returns, fails or panics.
use image_bed.Errors.{Error}
use image_bed.Pipeline.World.{
  Exec, Outcome, World, attempt, call, continue, deferring, done, fail, modify, panic, pure, query,
  reads, throw, wrapping, ◌>>=◌,
}
use image_bed.Prelude.{Bool, String, false, if◌then◌else◌, true, ℕ}
use image_bed.Variants.{Query}

pub record Keeps {A : Type 0} (P : World → Type 0) (m : Exec A) : Type 0 where
  pub at : (w : World) → P w → P (m w).1

module _ {A : Type 0} {P : World → Type 0} where
  pub Keeps-pure : (a : A) → Keeps P (pure a)
  unfolding pure
  Keeps-pure a = record { at = λ w h. h }

  pub Keeps-throw : (e : Error) → Keeps P (throw {A = A} e)
  unfolding throw
  Keeps-throw e = record { at = λ w h. h }

  pub Keeps-attempt : {m : Exec A} → Keeps P m → Keeps P (attempt m)
  unfolding attempt
  Keeps-attempt k = record { at = λ w h. k.at w h }

  pub Keeps-wrapping : (what : String) {m : Exec A} → Keeps P m → Keeps P (wrapping what m)
  unfolding wrapping
  Keeps-wrapping what k = record { at = λ w h. k.at w h }

  pub Keeps-deferring :
      (d : World → World) {m : Exec A}
      → ((w : World) → P w → P (d w))
      → Keeps P m
      → Keeps P (deferring d m)
  unfolding deferring
  Keeps-deferring d kd k = record { at = λ w h. kd _ (k.at w h) }

  pub Keeps-reads : (f : World → A) → Keeps P (reads f)
  unfolding reads
  Keeps-reads f = record { at = λ w h. h }

  pub Keeps-call :
      ((w : World) (n : ℕ) → P w → P (record w { calls = n }))
      → (f : ℕ → Outcome A) → Keeps P (call f)
  unfolding call
  Keeps-call steady f = record { at = λ w h. steady w _ h }

  pub Keeps-if : (b : Bool) {m n : Exec A} → Keeps P m → Keeps P n → Keeps P (if b then m else n)
  Keeps-if true km kn = km
  Keeps-if false km kn = kn

  pub Keeps-query :
      (q : Query A) → ((w : World) → P w → P (record w { db = (q w.db).1 })) → Keeps P (query q)
  unfolding query
  Keeps-query q k = record { at = k }

pub Keeps-modify :
    {P : World → Type 0} (f : World → World) → ((w : World) → P w → P (f w)) → Keeps P (modify f)
unfolding modify
Keeps-modify f k = record { at = k }

module _ {A B : Type 0} {P : World → Type 0} where
  pub Keeps-bind :
      {m : Exec A} {f : A → Exec B} → Keeps P m → ((a : A) → Keeps P (f a)) → Keeps P (m >>= f)
  unfolding ◌>>=◌
  Keeps-bind {m} {f} km kf = record { at = λ w h. after (m w).0 (m w).1 (km.at w h) }
    where
      after : (r : Outcome A) (w' : World) → P w' → P (continue r f w').1
      after (done a) w' h = (kf a).at w' h
      after (fail e) w' h = h
      after (panic s) w' h = h
