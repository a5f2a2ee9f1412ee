-- ===== src/World/Ensures.antt =====
-- What a handler ensures of the history: one rule for each way to build a handler.
use comm_care.Prelude.{
  ◌⊎◌, inl, inr, ◌≡◌, refl, subst, sym, Bool, true, false, none, some, ◌∷◌, if◌then◌else◌,
}
use comm_care.World.{
  Action, did, failed, History, Environment, World, Result, done, thrown, exhausted, M, pure,
  continue, ◌>>=◌, gets, modify, attempt, perform, do_action, ask, logged,
}

-- How a handler can fail to return.
pub data Failure : Type 0 where
  throws fuel_out : Failure

abbrev pub Failing : Type 1
Failing = Failure → History → Type 0

-- The same of both failures.
abbrev pub always : (History → Type 0) → Failing
always P k = P

-- `Q` where the handler returned, `E` of its failure where it did not.
pub Ensures : {A : Type 0} → Failing → (A → History → Type 0) → Result A → Type 0
Ensures E Q (done a w) = Q a w.history
Ensures E Q (thrown w) = E throws w.history
Ensures E Q (exhausted w) = E fuel_out w.history

pub record Triple {A : Type 0} (E : Failing) (P : History → Type 0) (m : M A)
    (Q : A → History → Type 0) : Type 0 where
  pub at : (w : World) → P w.history → Ensures E Q (m w)

-- The world in which a handler ended, however it ended.
abbrev pub world_of : {A : Type 0} → Result A → World
world_of (done a w) = w
world_of (thrown w) = w
world_of (exhausted w) = w

pub Ensures-world_of :
    {A : Type 0} (E : History → Type 0) (r : Result A)
    → Ensures (always E) (λ _. E) r
    → E (world_of r).history
unfolding Ensures
Ensures-world_of E (done a w) h = h
Ensures-world_of E (thrown w) h = h
Ensures-world_of E (exhausted w) h = h

abbrev pub Ends : {A : Type 0} → Result A → Type 0
Ends (done a w) = Unit {0}
Ends (thrown w) = Unit {0}
Ends (exhausted w) = ⊥

-- The failures that leave fuel.
abbrev pub ends : Failing
ends throws h = Unit {0}
ends fuel_out h = ⊥

pub Ensures-Ends :
    {A : Type 0} (Q : A → History → Type 0) (r : Result A) → Ensures ends Q r → Ends r
unfolding Ensures
Ensures-Ends Q (done a w) h = tt
Ensures-Ends Q (thrown w) h = tt
Ensures-Ends Q (exhausted w) h = h

abbrev pub IsThrown : {A : Type 0} → Result A → Type 0
IsThrown (done a w) = ⊥
IsThrown (thrown w) = Unit {0}
IsThrown (exhausted w) = ⊥

-- A handler that does not run out of fuel throws, or returns with what it ensures.
pub Ensures-cases :
    {A : Type 0} (E : Failing) (Q : History → Type 0) (r : Result A)
    → ((h : History) → E fuel_out h → ⊥)
    → Ensures E (λ _. Q) r
    → (IsThrown r × E throws (world_of r).history) ⊎ Q (world_of r).history
unfolding Ensures
Ensures-cases E Q (done a w) no_fuel h = inr h
Ensures-cases E Q (thrown w) no_fuel h = inl (tt, h)
Ensures-cases E Q (exhausted w) no_fuel h = absurd (no_fuel w.history h)

-- A failure that `attempt` catches leaves `P`.
abbrev pub caught : Failing → (History → Type 0) → Failing
caught E P throws h = P h
caught E P fuel_out h = E fuel_out h

module _ {A : Type 0} {E : Failing} {P : History → Type 0} where
  pub Triple-pure :
      {Q : A → History → Type 0} (a : A) → ((h : History) → P h → Q a h) → Triple E P (pure a) Q
  unfolding Ensures
  Triple-pure a f = record { at = λ w p. f w.history p }

  pub Triple-exhausted :
      {Q : A → History → Type 0} → ((h : History) → P h → E fuel_out h) → Triple E P exhausted Q
  unfolding Ensures
  Triple-exhausted e = record { at = λ w p. e w.history p }

  pub Triple-gets : (f : World → A) → Triple E P (gets f) (λ _. P)
  unfolding Ensures gets
  Triple-gets f = record { at = λ w p. p }

  -- A query leaves the equation that it is answered from the history.
  pub Triple-ask :
      (env : Environment) (q : History → A) → Triple E P (ask env q) (λ a h. P h × (q h ≡ a))
  unfolding Ensures ask
  Triple-ask env q = record { at = λ w p. (p, refl) }

pub Triple-modify :
    {E : Failing} {P : History → Type 0} (f : World → World)
    → ((w : World) → (f w).history ≡ w.history)
    → Triple E P (modify f) (λ _. P)
unfolding Ensures modify
Triple-modify {E} {P} f same = record { at = λ w p. subst P (sym (same w)) p }

module _ {A B : Type 0} {E : Failing} {Q : A → History → Type 0} where
  Ensures-continue :
      {R : B → History → Type 0} (r : Result A) (f : A → M B)
      → Ensures E Q r
      → ((a : A) → Triple E (Q a) (f a) R)
      → Ensures E R (continue r f)
  unfolding Ensures
  Ensures-continue (done a w) f h k = (k a).at w h
  Ensures-continue (thrown w) f h k = h
  Ensures-continue (exhausted w) f h k = h

  pub Triple-bind :
      {P : History → Type 0} {R : B → History → Type 0} (m : M A) (f : A → M B)
      → Triple E P m Q
      → ((a : A) → Triple E (Q a) (f a) R)
      → Triple E P (m >>= f) R
  unfolding ◌>>=◌
  Triple-bind m f t k = record { at = λ w p. Ensures-continue (m w) f (t.at w p) k }

module _ {A : Type 0} where
  Ensures-weaken :
      (e : Failing) {Q Q' : A → History → Type 0} (r : Result A)
      → Ensures e Q' r
      → ((a : A) (h : History) → Q' a h → Q a h)
      → Ensures e Q r
  unfolding Ensures
  Ensures-weaken e (done a w) h q = q a w.history h
  Ensures-weaken e (thrown w) h q = h
  Ensures-weaken e (exhausted w) h q = h

module _ {A : Type 0} {E : Failing} where
  pub Triple-weaken :
      {P P' : History → Type 0} {Q Q' : A → History → Type 0} {m : M A}
      → Triple E P' m Q'
      → ((h : History) → P h → P' h)
      → ((a : A) (h : History) → Q' a h → Q a h)
      → Triple E P m Q
  Triple-weaken {m = m} t p q = record {
    at = λ w x. Ensures-weaken E (m w) (t.at w (p w.history x)) q;
  }

  -- What is thrown inside `attempt` is no failure.
  pub Triple-attempt :
      {P Q : History → Type 0} {m : M A}
      → Triple (caught E Q) P m (λ _. Q)
      → Triple E P (attempt m) (λ _. Q)
  unfolding attempt Ensures
  Triple-attempt {P} {Q} {m} t = record { at = λ w p. by_result (m w) (t.at w p) }
    where
      by_result :
          (r : Result A)
          → Ensures (caught E Q) (λ _. Q) r
          → Ensures E
              (λ _. Q)
              (elim r [
                | done a w' ↦ done (some a) w'
                | thrown w' ↦ done none w'
                | exhausted w' ↦ exhausted w'
              ])
      by_result (done a w') h = h
      by_result (thrown w') h = h
      by_result (exhausted w') h = h

  -- A fact that follows from the precondition can be used.
  pub Triple-given :
      {P : History → Type 0} {F : Type 0} {Q : A → History → Type 0} {m : M A}
      → ((h : History) → P h → F)
      → (F → Triple E P m Q)
      → Triple E P m Q
  Triple-given fact t = record { at = λ w p. (t (fact w.history p)).at w p }

module _ {E : Failing} {P : History → Type 0} (env : Environment) (a : Action) where
  pub Triple-perform :
      {Q : History → Type 0}
      → ((h : History) → P h → E throws (failed a ∷ h))
      → ((h : History) → P h → Q (did a ∷ h))
      → Triple E P (perform env a) (λ _. Q)
  unfolding perform Ensures
  Triple-perform {Q} bad good = record { at = λ w p. by_answer (env.fails w.history a) w p }
    where
      by_answer :
          (b : Bool) (w : World)
          → P w.history
          → Ensures E
              (λ _. Q)
              (if b
                then thrown (logged w (failed a))
                else done (env.reply w.history a) (logged w (did a)))
      by_answer true w p = bad w.history p
      by_answer false w p = good w.history p

  pub Triple-do_action :
      {Q : History → Type 0}
      → ((h : History) → P h → E throws (failed a ∷ h))
      → ((h : History) → P h → Q (did a ∷ h))
      → Triple E P (do_action env a) (λ _. Q)
  unfolding do_action
  Triple-do_action bad good =
      Triple-bind (perform env a) (λ _. pure tt) (Triple-perform bad good)
        (λ r. Triple-pure tt (λ h q. q))
