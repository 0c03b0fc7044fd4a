-- ===== src/Services/Triples.antt =====
-- Statements of what an operation leaves behind, for each way out of it.
use mathlib.Core.Path.{subst}
use image_bed.Errors.{Error, Result, err, ok}
use image_bed.Models.{Image, ImageVariant}
use image_bed.Prelude.{Bool, List, String, false, if◌then◌else◌, refl, sym, true, ℕ, ◌≡◌}
use image_bed.Services.{
  Act, Site, act_then, attempt, call, change_site, committed, failing_with, pure, query,
  rolled_back, throw, transaction, try_call, ◌>>=◌,
}
use image_bed.Variants.{on_images, on_variants}

-- What holds after a result or after an error.
abbrev pub After : {A : Type 0} → (A → Site → Type 0) → (Site → Type 0) → Result A → Site → Type 0
After Q E (ok a) s = Q a s
After Q E (err e) s = E s

pub record Triple {A : Type 0} (P : Site → Type 0) (m : Act A) (Q : A → Site → Type 0)
    (E : Site → Type 0) : Type 0 where
  pub runs : (s : Site) → P s → After Q E (m s).0 (m s).1

module _ {A B : Type 0} (E : Site → Type 0) where
  bind_at :
      (Q : A → Site → Type 0) (R : B → Site → Type 0) (f : A → Act B)
      → ((a : A) → Triple (Q a) (f a) R E)
      → (r : Result A) (s : Site) → After Q E r s
      → After R E (act_then r f s).0 (act_then r f s).1
  bind_at Q R f k (ok a) s h = (k a).runs s h
  bind_at Q R f k (err e) s h = h

pub bind_rule :
    {A B : Type 0} {P : Site → Type 0} {E : Site → Type 0} {Q : A → Site → Type 0}
    {R : B → Site → Type 0} {m : Act A} {f : A → Act B}
    → Triple P m Q E
    → ((a : A) → Triple (Q a) (f a) R E)
    → Triple P (m >>= f) R E
unfolding ◌>>=◌
bind_rule {E = E} {Q = Q} {R = R} {m = m} {f = f} h k = record {
  runs = λ s p. bind_at E Q R f k (m s).0 (m s).1 (h.runs s p);
}

pub attempt_rule :
    {A : Type 0} {P : Site → Type 0} {E E' : Site → Type 0} {Q : A → Site → Type 0} {m : Act A}
    → Triple P m Q E
    → Triple P (attempt m) (λ r s. After Q E r s) E'
unfolding attempt
attempt_rule h = record { runs = λ s p. h.runs s p }

weaken_at :
    {A : Type 0} (Q : A → Site → Type 0) (E E' : Site → Type 0)
    → ((s : Site) → E s → E' s)
    → (r : Result A) (s : Site) → After Q E r s
    → After Q E' r s
weaken_at Q E E' f (ok a) s h = h
weaken_at Q E E' f (err e) s h = f s h

pub weaken_rule :
    {A : Type 0} {P : Site → Type 0} {E E' : Site → Type 0} {Q : A → Site → Type 0} {m : Act A}
    → ((s : Site) → E s → E' s)
    → Triple P m Q E
    → Triple P m Q E'
weaken_rule {E = E} {E' = E'} {Q = Q} {m = m} f h = record {
  runs = λ s p. weaken_at Q E E' f (m s).0 (m s).1 (h.runs s p);
}

result_at :
    {A : Type 0} (Q Q' : A → Site → Type 0) (E : Site → Type 0)
    → ((a : A) (s : Site) → Q a s → Q' a s)
    → (r : Result A) (s : Site) → After Q E r s
    → After Q' E r s
result_at Q Q' E f (ok a) s h = f a s h
result_at Q Q' E f (err e) s h = h

pub result_rule :
    {A : Type 0} {P : Site → Type 0} {E : Site → Type 0} {Q Q' : A → Site → Type 0} {m : Act A}
    → ((a : A) (s : Site) → Q a s → Q' a s)
    → Triple P m Q E
    → Triple P m Q' E
result_rule {E = E} {Q = Q} {Q' = Q'} {m = m} f h = record {
  runs = λ s p. result_at Q Q' E f (m s).0 (m s).1 (h.runs s p);
}

pub before_rule :
    {A : Type 0} {P P' : Site → Type 0} {E : Site → Type 0} {Q : A → Site → Type 0} {m : Act A}
    → ((s : Site) → P s → P' s)
    → Triple P' m Q E
    → Triple P m Q E
before_rule f h = record { runs = λ s p. h.runs s (f s p) }

pub if_rule :
    {A : Type 0} {P : Site → Type 0} {E : Site → Type 0} {Q : A → Site → Type 0} {m n : Act A}
    (b : Bool)
    → (b ≡ true → Triple P m Q E)
    → (b ≡ false → Triple P n Q E)
    → Triple P (if b then m else n) Q E
if_rule true h k = h refl
if_rule false h k = k refl

failing_at :
    {A : Type 0} (Q : A → Site → Type 0) (E : Site → Type 0) (f : Error → Error) (r : Result A)
    (s : Site)
    → After Q E r s
    → After Q E (elim r [ ok a ↦ ok a | err e ↦ err (f e) ]) s
failing_at Q E f (ok a) s h = h
failing_at Q E f (err e) s h = h

pub failing_rule :
    {A : Type 0} {P : Site → Type 0} {E : Site → Type 0} {Q : A → Site → Type 0} {m : Act A}
    (f : Error → Error)
    → Triple P m Q E
    → Triple P (failing_with f m) Q E
unfolding failing_with
failing_rule {E = E} {Q = Q} {m = m} f h = record {
  runs = λ s p. failing_at Q E f (m s).0 (m s).1 (h.runs s p);
}

-- What is said of the rows and of the files only.
abbrev pub Facts : Type 1
Facts = List ImageVariant → List Image → List (ℕ × String) → Type 0

abbrev pub On : Facts → Site → Type 0
On J s = J s.db.variants s.db.images s.files

pub record Keeps {A : Type 0} (J : Facts) (m : Act A) : Type 0 where
  pub keeps : (s : Site) → On J s → On J (m s).1

both_ways :
    {A : Type 0} (J : Facts) (r : Result A) (s : Site) → On J s → After (λ _. On J) (On J) r s
both_ways J (ok a) s h = h
both_ways J (err e) s h = h

from_each :
    {A : Type 0} (J : Facts) (r : Result A) (s : Site) → After (λ _. On J) (On J) r s → On J s
from_each J (ok a) s h = h
from_each J (err e) s h = h

pub keeping : {A : Type 0} {J : Facts} {m : Act A} → Keeps J m → Triple (On J) m (λ _. On J) (On J)
keeping {J = J} {m = m} k = record { runs = λ s p. both_ways J (m s).0 (m s).1 (k.keeps s p) }

pub kept : {A : Type 0} {J : Facts} {m : Act A} → Triple (On J) m (λ _. On J) (On J) → Keeps J m
kept {J = J} {m = m} t = record { keeps = λ s p. from_each J (m s).0 (m s).1 (t.runs s p) }

module _ (J : Facts) where
  pub Keeps-pure : {A : Type 0} (a : A) → Keeps J (pure a)
  unfolding pure
  Keeps-pure a = record { keeps = λ s h. h }

  pub Keeps-throw : {A : Type 0} (e : Error) → Keeps J (throw {A = A} e)
  unfolding throw
  Keeps-throw e = record { keeps = λ s h. h }

  pub Keeps-call : {A : Type 0} (f : ℕ → A) → Keeps J (call f)
  unfolding call
  Keeps-call f = record { keeps = λ s h. h }

  pub Keeps-try_call : {A : Type 0} (f : ℕ → Result A) → Keeps J (try_call f)
  unfolding try_call
  Keeps-try_call f = record { keeps = λ s h. h }

  -- A statement that only reads.
  pub Keeps-on_images :
      {A : Type 0} (f : ℕ → List Image → Result A) → Keeps J (query (on_images (λ k t. (f k t, t))))
  unfolding query
  Keeps-on_images f = record { keeps = λ s h. h }

  pub Keeps-on_variants :
      {A : Type 0} (f : ℕ → List ImageVariant → Result A)
      → Keeps J (query (on_variants (λ k t. (f k t, t))))
  unfolding query
  Keeps-on_variants f = record { keeps = λ s h. h }

  pub Keeps-change_site :
      (f : Site → Site) → ((s : Site) → On J s → On J (f s)) → Keeps J (change_site f)
  unfolding change_site
  Keeps-change_site f h = record { keeps = h }

pub Keeps-attempt : {A : Type 0} {J : Facts} {m : Act A} → Keeps J m → Keeps J (attempt m)
unfolding attempt
Keeps-attempt k = record { keeps = λ s h. k.keeps s h }

pub Keeps-failing :
    {A : Type 0} {J : Facts} {m : Act A} (f : Error → Error)
    → Keeps J m
    → Keeps J (failing_with f m)
unfolding failing_with
Keeps-failing f k = record { keeps = λ s h. k.keeps s h }

pub Keeps-bind :
    {A B : Type 0} {J : Facts} {m : Act A} {f : A → Act B}
    → Keeps J m
    → ((a : A) → Keeps J (f a))
    → Keeps J (m >>= f)
Keeps-bind k h = kept (bind_rule (keeping k) (λ a. keeping (h a)))

pub Keeps-if :
    {A : Type 0} {J : Facts} {m n : Act A} (b : Bool)
    → Keeps J m
    → Keeps J n
    → Keeps J (if b then m else n)
Keeps-if true k h = k
Keeps-if false k h = h

settled :
    {A : Type 0} (J : Facts) (s : Site) (r : Result A) (s' : Site)
    → On J s
    → On J s'
    → s'.files ≡ s.files
    → On J (rolled_back s r s').1
settled J s (ok a) s' h h' e = h'
settled J s (err why) s' h h' e = subst (J s.db.variants s.db.images) (sym e) h

-- A transaction that leaves the files alone.
pub Keeps-transaction :
    {A : Type 0} {J : Facts} {m : Act A} (commit : ℕ → Result (Unit {0}))
    → Keeps J m
    → ((files : List (ℕ × String)) → Keeps (λ v i f. f ≡ files) m)
    → Keeps J (transaction commit m)
unfolding transaction
Keeps-transaction {J = J} {m = m} commit k still = record {
  keeps = λ s h.
      settled J s (committed commit m s).0 (committed commit m s).1 h ((with_commit J k).keeps s h)
        ((with_commit (λ v i f. f ≡ s.files) (still s.files)).keeps s refl);
}
  where
    with_commit : (K : Facts) → Keeps K m → Keeps K (committed commit m)
    with_commit K k = Keeps-bind k (λ a. Keeps-bind (Keeps-try_call K commit) (λ _. Keeps-pure K a))

pub Keeps-if_true :
    {A : Type 0} {J : Facts} {m n : Act A} (b : Bool)
    → (b ≡ true → Keeps J m)
    → Keeps J n
    → Keeps J (if b then m else n)
Keeps-if_true true k h = k refl
Keeps-if_true false k h = h
