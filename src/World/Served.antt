-- ===== src/World/Served.antt =====
-- A caller is served once the program has asked to answer the channel or to hang it up.
use comm_care.Prelude.{String, ◌≡◌, refl, ◌⊎◌, inl, inr, true, [], ◌∷◌}
use comm_care.World.{
  Action, Entry, did, failed, History, Environment, answer_channel, hangup_channel, do_action,
}
use comm_care.World.Ensures.{Failing, throws, fuel_out, Triple, Triple-do_action}
use comm_care.World.Keeps.{IsStable}

-- The request was made, whether or not it was granted.
abbrev pub WasAsked : Action → History → Type 0
WasAsked a [] = ⊥
WasAsked a (did b ∷ h) = (b ≡ a) ⊎ WasAsked a h
WasAsked a (failed b ∷ h) = (b ≡ a) ⊎ WasAsked a h

pub WasAsked-later : (a : Action) (e : Entry) (h : History) → WasAsked a h → WasAsked a (e ∷ h)
WasAsked-later a (did b) h p = inr p
WasAsked-later a (failed b) h p = inr p

abbrev pub IsServed : String → History → Type 0
IsServed channel h = WasAsked (answer_channel channel) h ⊎ WasAsked (hangup_channel channel) h

pub IsServed-stable : (channel : String) → IsStable (λ e. true) (IsServed channel)
IsServed-stable channel e h q (inl a) = inl (WasAsked-later _ e h a)
IsServed-stable channel e h q (inr a) = inr (WasAsked-later _ e h a)

-- Nothing is promised of a handler that throws; where fuel runs out, `P` holds.
abbrev pub unless_thrown : (History → Type 0) → Failing
unless_thrown P throws h = Unit
unless_thrown P fuel_out h = P h

module _ (env : Environment) (channel : String) {P : History → Type 0} where
  pub answer-IsServed :
      {E : History → Type 0}
      → Triple (unless_thrown E) P (do_action env (answer_channel channel)) (λ _. IsServed channel)
  answer-IsServed = Triple-do_action env _ (λ h p. tt) (λ h p. inl (inl refl))

  pub hangup-IsServed :
      {E : History → Type 0}
      → Triple (unless_thrown E) P (do_action env (hangup_channel channel)) (λ _. IsServed channel)
  hangup-IsServed = Triple-do_action env _ (λ h p. tt) (λ h p. inr (inl refl))
