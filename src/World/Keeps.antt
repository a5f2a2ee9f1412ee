-- ===== src/World/Keeps.antt =====
-- Handlers that keep what every quiet request keeps: the rules of Ensures at one predicate.
use comm_care.Prelude.{◌≡◌, refl, Bool, true, false, Option, none, some, if◌then◌else◌}
use comm_care.World.{
  Action, Entry, did, failed, History, Environment, World, M, pure, ◌>>=◌, gets, modify, attempt,
  perform, do_action, ask,
}
use comm_care.World.Ensures.{
  Failing, throws, caught, Triple, Triple-pure, Triple-gets, Triple-ask, Triple-modify, Triple-bind,
  Triple-weaken, Triple-attempt, Triple-perform, Triple-do_action,
}
use mathlib.Core.List.{◌∷◌}

-- `m` keeps `P` where it returns, and ensures `E` of its failure where it does not.
abbrev pub Keeps : {A : Type 0} → Failing → (History → Type 0) → M A → Type 0
Keeps E P m = Triple E P m (λ _. P)

-- What no quiet entry breaks.
abbrev pub IsStable : (Entry → Bool) → (History → Type 0) → Type 0
IsStable quiet P = (e : Entry) (h : History) → quiet e ≡ true → P h → P (e ∷ h)

-- What is thrown under `P` ensures `E`.
abbrev pub MayThrow : Failing → (History → Type 0) → Type 0
MayThrow E P = (h : History) → P h → E throws h

module _ {E : Failing} {P : History → Type 0} where
  pub Keeps-pure : {A : Type 0} (a : A) → Keeps E P (pure a)
  Keeps-pure a = Triple-pure a (λ h p. p)

  pub Keeps-ask : {A : Type 0} (env : Environment) (q : History → A) → Keeps E P (ask env q)
  Keeps-ask env q = Triple-weaken (Triple-ask env q) (λ h p. p) (λ a h p. p.0)

  pub Keeps-gets : {A : Type 0} (f : World → A) → Keeps E P (gets f)
  Keeps-gets f = Triple-gets f

  pub Keeps-bind :
      {A B : Type 0} (m : M A) (f : A → M B)
      → Keeps E P m
      → ((a : A) → Keeps E P (f a))
      → Keeps E P (m >>= f)
  Keeps-bind m f km kf = Triple-bind m f km kf

  pub Keeps-then :
      {A B : Type 0} (m : M A) (k : M B) → Keeps E P m → Keeps E P k → Keeps E P (m >>= λ _. k)
  Keeps-then m k km kk = Triple-bind m (λ _. k) km (λ _. kk)

  pub Keeps-modify :
      (f : World → World) → ((w : World) → (f w).history ≡ w.history) → Keeps E P (modify f)
  Keeps-modify f same = Triple-modify f same

  pub Keeps-attempt : {A : Type 0} (m : M A) → Keeps (caught E P) P m → Keeps E P (attempt m)
  Keeps-attempt m k = Triple-attempt k

  pub Keeps-elim :
      {A B : Type 0} (o : Option A) (m : M B) (f : A → M B)
      → Keeps E P m
      → ((a : A) → Keeps E P (f a))
      → Keeps E P (elim o [ none ↦ m | some a ↦ f a ])
  Keeps-elim none m f km kf = km
  Keeps-elim (some a) m f km kf = kf a

module _ {E : Failing} {P : History → Type 0} (quiet : Entry → Bool) (stable : IsStable quiet P)
    (fails : MayThrow E P) (env : Environment) (a : Action) (d : quiet (did a) ≡ true)
    (f : quiet (failed a) ≡ true) where
  pub Keeps-perform : Keeps E P (perform env a)
  Keeps-perform =
      Triple-perform env a (λ h p. fails _ (stable (failed a) h f p)) (λ h p. stable (did a) h d p)

  pub Keeps-do_action : Keeps E P (do_action env a)
  Keeps-do_action =
      Triple-do_action env a (λ h p. fails _ (stable (failed a) h f p))
        (λ h p. stable (did a) h d p)

-- A branch knows the test that led to it.
module _ {A : Type 0} {E : Failing} {P : History → Type 0} {Q : A → History → Type 0} where
  pub Triple-if :
      (b : Bool) (m k : M A)
      → (b ≡ true → Triple E P m Q)
      → (b ≡ false → Triple E P k Q)
      → Triple E P (if b then m else k) Q
  Triple-if true m k t f = t refl
  Triple-if false m k t f = f refl

  pub Triple-elim :
      {B : Type 0} (o : Option B) (m : M A) (f : B → M A)
      → (o ≡ none → Triple E P m Q)
      → ((b : B) → o ≡ some b → Triple E P (f b) Q)
      → Triple E P (elim o [ none ↦ m | some b ↦ f b ]) Q
  Triple-elim none m f tn ts = tn refl
  Triple-elim (some b) m f tn ts = ts b refl
