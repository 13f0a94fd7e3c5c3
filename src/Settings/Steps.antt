-- ===== src/Settings/Steps.antt =====
-- Lemmas on the steps of rust/abacus-base/src/settings/mod.rs.
use ethmexico.Base.{◌≡◌, refl, ap, ◌∙◌, Option, some}
use ethmexico.Storage.Syncers.{Build, built, failed, panicked}
use ethmexico.Settings.{Setup, next, ◌>>=◌, steady}

pub built-injective : {A : Type 0} (a b : A) → built a ≡ built b → a ≡ b
built-injective a b h = cc

next-eq-built :
    {R A B : Type 0} (x : Build A × Option R) (f : A → Setup R B) (b : B) (k' : Option R)
    → next x f ≡ (built b, k')
    → (a : A) × (k : Option R) × (x ≡ (built a, k)) × (f a k ≡ (built b, k'))
next-eq-built (built a, k) f b k' h = (a, k, refl, h)
next-eq-built (failed, k) f b k' h = cc
next-eq-built (panicked, k) f b k' h = cc

-- Of two steps that succeed one after the other, both succeed.
pub >>=-eq-built :
    {R A B : Type 0} (m : Setup R A) (f : A → Setup R B) (b : B) (k k' : Option R)
    → (m >>= f) k ≡ (built b, k')
    → (a : A) × (k1 : Option R) × (m k ≡ (built a, k1)) × (f a k1 ≡ (built b, k'))
unfolding ◌>>=◌
>>=-eq-built m f b k k' h = next-eq-built (m k) f b k' h

module _ (R : Type 0) (r : R) where
  -- With the client of the region `r`, two steps do the same, and leave that client.
  pub record Same {A : Type 0} (m m' : Setup R A) : Type 0 where
    pub same : m (some r) ≡ m' (some r)
    pub kept : (m (some r)).1 ≡ some r

  pub steady-Same : {A : Type 0} (b : Build A) → Same (steady b) (steady b)
  steady-Same b = record { same = refl; kept = refl }

  next-Same :
      {A B : Type 0} (x : Build A × Option R) (f f' : A → Setup R B)
      → x.1 ≡ some r
      → ((a : A) → Same (f a) (f' a))
      → (next x f ≡ next x f') × ((next x f).1 ≡ some r)
  next-Same (built a, k) f f' e h = rw e ((h a).same, (h a).kept)
  next-Same (failed, k) f f' e h = (refl, e)
  next-Same (panicked, k) f f' e h = (refl, e)

  pub >>=-Same :
      {A B : Type 0} {m m' : Setup R A} {f f' : A → Setup R B}
      → Same m m'
      → ((a : A) → Same (f a) (f' a))
      → Same (m >>= f) (m' >>= f')
  unfolding ◌>>=◌
  >>=-Same {m = m} {f = f} {f' = f'} e h =
      let (same, left) = next-Same (m (some r)) f f' e.kept h in
      record { same = same ∙ ap (λ x. next x f') e.same; kept = left }
