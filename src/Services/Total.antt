-- ===== src/Services/Total.antt =====
-- Operations that return no error: Go's functions without a result.
use image_bed.Errors.{Result, err, ok}
use image_bed.Prelude.{Bool, false, if◌then◌else◌, refl, true, ◌≡◌}
use image_bed.Services.{Act, Site, attempt, change_site, pure, ◌>>=◌}
use image_bed.Services.Triples.{After, Facts, Keeps, On, Triple}

pub record IsTotal {A : Type 0} (m : Act A) : Type 0 where
  pub answers : (s : Site) → (a : A) × ((m s).0 ≡ ok a)

pub pure-IsTotal : {A : Type 0} (a : A) → IsTotal (pure a)
unfolding pure
pure-IsTotal a = record { answers = λ s. (a, refl) }

pub attempt-IsTotal : {A : Type 0} (m : Act A) → IsTotal (attempt m)
unfolding attempt
attempt-IsTotal m = record { answers = λ s. ((m s).0, refl) }

pub change_site-IsTotal : (f : Site → Site) → IsTotal (change_site f)
unfolding change_site
change_site-IsTotal f = record { answers = λ s. (tt, refl) }

pub bind-IsTotal :
    {A B : Type 0} {m : Act A} {f : A → Act B}
    → IsTotal m
    → ((a : A) → IsTotal (f a))
    → IsTotal (m >>= f)
unfolding ◌>>=◌
bind-IsTotal {m = m} {f = f} h k = record {
  answers = λ s. let (a, e) = h.answers s in let (b, e') = (k a).answers (m s).1 in (b, rw e e');
}

pub if-IsTotal :
    {A : Type 0} {m n : Act A} (b : Bool) → IsTotal m → IsTotal n → IsTotal (if b then m else n)
if-IsTotal true h k = h
if-IsTotal false h k = k

-- What comes after such an operation gives the answer.
pub bind-answers :
    {A B : Type 0} (m : Act A) (f : A → Act B) (b : B)
    → IsTotal m
    → ((a : A) (s : Site) → (f a s).0 ≡ ok b)
    → (s : Site) → ((m >>= f) s).0 ≡ ok b
unfolding ◌>>=◌
bind-answers m f b h k s = let (a, e) = h.answers s in rw e (k a (m s).1)

-- and leaves the state behind.
pub bind-leaves :
    {A B : Type 0} (m : Act A) (f : A → Act B) (P : Site → Type 0) (s : Site)
    → IsTotal m
    → ((a : A) → P (f a (m s).1).1)
    → P ((m >>= f) s).1
unfolding ◌>>=◌
bind-leaves m f P s h k = let (a, e) = h.answers s in rw e (k a)

-- What such an operation keeps, it keeps on its only way out.
kept_by :
    {A : Type 0} (J : Facts) (E : Site → Type 0) (a : A) (r : Result A) (s : Site)
    → r ≡ ok a
    → On J s
    → After (λ _. On J) E r s
kept_by J E a (ok b) s e h = h
kept_by J E a (err why) s e h = absurd cc

pub total_rule :
    {A : Type 0} {J : Facts} {E : Site → Type 0} {m : Act A}
    → IsTotal m
    → Keeps J m
    → Triple (On J) m (λ _. On J) E
total_rule {J = J} {E = E} {m = m} total k = record {
  runs = λ s h. let (a, e) = total.answers s in kept_by J E a (m s).0 (m s).1 e (k.keeps s h);
}
