-- ===== src/Click2Call/Monotone.antt =====
-- Each handler of the click-to-call workflow writes rows that refine one another.
use comm_care.Prelude.{
  ℕ, String, ◌≡◌, refl, ◌⊎◌, inl, inr, arith, true, false, Option, none, some, is_some, present,
}
use comm_care.Hangup.{CallStatus}
use comm_care.CallLegs.{UpsertAriCallLegInput, save_leg, upsert_from_ari_channel, append_ari_event}
use comm_care.Entities.{Call, WebhookTrigger}
use comm_care.World.{
  did, failed, Action, write_call, History, Environment, M, skip, perform, do_action,
}
use comm_care.World.Ensures.{
  Failing, always, caught, Triple, Triple-pure, Triple-weaken, Triple-do_action,
}
use comm_care.World.Keeps.{
  Keeps, IsStable, MayThrow, Keeps-pure, Keeps-ask, Keeps-bind, Keeps-then, Keeps-elim,
  Keeps-perform, Keeps-do_action,
}
use comm_care.Click2Call.Rows.{
  EventOptions, WebhookExtra, with_caller, with_callee, failed_at, bridged_at, ended_call,
  record_event_at, record_event_now, update_call, emit_click2call_webhook,
}
use comm_care.Click2Call.Once.{
  IsKept, Refines, spares_calls, IsMonotone, IsBehind, IsBehind-spared, IsCurrent, IsCurrent-write,
}

Refines-refl : (p : Call) → Refines p p
Refines-refl p = record {
  caller = inr refl;
  callee = inr refl;
  bridge = inr refl;
  start = inr refl;
  ending = inr (refl, refl);
  parties = (refl, refl, refl, refl);
}

IsKept-trans : (a b c : Option String) → IsKept a b → IsKept b c → IsKept a c
IsKept-trans a b c x y = ground arith

Refines-trans : (p q r : Call) → Refines p q → Refines q r → Refines p r
Refines-trans p q r x y = record {
  caller =
      IsKept-trans p.caller_channel_id q.caller_channel_id r.caller_channel_id x.caller y.caller;
  callee =
      IsKept-trans p.callee_channel_id q.callee_channel_id r.callee_channel_id x.callee y.callee;
  bridge = IsKept-trans p.bridge_id q.bridge_id r.bridge_id x.bridge y.bridge;
  start = later_start x.start y.start;
  ending = later_end x.ending y.ending;
  parties = parties_trans x.parties y.parties;
}
  where
    later_start :
        (p.started_at ≡ none) ⊎ (q.started_at ≡ p.started_at)
        → (q.started_at ≡ none) ⊎ (r.started_at ≡ q.started_at)
        → (p.started_at ≡ none) ⊎ (r.started_at ≡ p.started_at)
    later_start a b = ground arith

    later_end :
        (p.ended_at ≡ none) ⊎ ((q.ended_at ≡ p.ended_at) × (q.duration ≡ p.duration))
        → (q.ended_at ≡ none) ⊎ ((r.ended_at ≡ q.ended_at) × (r.duration ≡ q.duration))
        → (p.ended_at ≡ none) ⊎ ((r.ended_at ≡ p.ended_at) × (r.duration ≡ p.duration))
    later_end a b = ground arith

    parties_trans :
        ((q.tenant_id ≡ p.tenant_id)
          × (q.direction ≡ p.direction)
          × (q.caller_number ≡ p.caller_number)
          × (q.call_to_number ≡ p.call_to_number))
        → ((r.tenant_id ≡ q.tenant_id)
            × (r.direction ≡ q.direction)
            × (r.caller_number ≡ q.caller_number)
            × (r.call_to_number ≡ q.call_to_number))
        → ((r.tenant_id ≡ p.tenant_id)
            × (r.direction ≡ p.direction)
            × (r.caller_number ≡ p.caller_number)
            × (r.call_to_number ≡ p.call_to_number))
    parties_trans a b = (cc, cc, cc, cc)

pub IsCurrent-IsBehind : (q : Call) (h : History) → IsCurrent q h → IsBehind q h
IsCurrent-IsBehind q h c = record {
  before = q;
  current = c;
  same_id = refl;
  refined = Refines-refl q;
}

-- Past this point the handler goes on with another row of the same call.
pub IsBehind-refine :
    (p q : Call) (h : History) → p.id ≡ q.id → Refines p q → IsBehind p h → IsBehind q h
IsBehind-refine p q h same x b = record {
  before = b.before;
  current = b.current;
  same_id = cc;
  refined = Refines-trans b.before p q b.refined x;
}

-- The rows that the handlers write refine the row that they have read.
pub Refines-with_caller :
    (c : Call) (channel : String) (t : ℕ)
    → IsKept c.caller_channel_id (some channel)
    → Refines c (with_caller c channel t)
Refines-with_caller c channel t k = record {
  caller = k;
  callee = inr refl;
  bridge = inr refl;
  start = ground arith;
  ending = inr (refl, refl);
  parties = (refl, refl, refl, refl);
}

pub Refines-with_callee :
    (c : Call) (channel : String)
    → IsKept c.callee_channel_id (some channel)
    → Refines c (with_callee c channel)
Refines-with_callee c channel k = record {
  caller = inr refl;
  callee = k;
  bridge = inr refl;
  start = inr refl;
  ending = inr (refl, refl);
  parties = (refl, refl, refl, refl);
}

pub Refines-failed_at : (c : Call) (t : ℕ) → c.ended_at ≡ none → Refines c (failed_at c t)
Refines-failed_at c t going_on = record {
  caller = inr refl;
  callee = inr refl;
  bridge = inr refl;
  start = inr refl;
  ending = inl going_on;
  parties = (refl, refl, refl, refl);
}

pub Refines-bridged_at :
    (c : Call) (bridge : String) (t : ℕ)
    → present c.bridge_id ≡ none
    → Refines c (bridged_at c bridge t)
Refines-bridged_at c bridge t k = record {
  caller = inr refl;
  callee = inr refl;
  bridge = inl k;
  start = inr refl;
  ending = inr (refl, refl);
  parties = (refl, refl, refl, refl);
}

pub Refines-ended_call :
    (c : Call) (s : CallStatus) (t : ℕ) → c.ended_at ≡ none → Refines c (ended_call c s t)
unfolding ended_call
Refines-ended_call c s t going_on = record {
  caller = inr refl;
  callee = inr refl;
  bridge = inr refl;
  start = inr refl;
  ending = inl going_on;
  parties = (refl, refl, refl, refl);
}

-- Writing the row that the handler has in mind.
pub update_call-Keeps :
    (env : Environment) {E : Failing} (q : Call)
    → MayThrow E (IsBehind q)
    → Keeps E (IsBehind q) (update_call env q)
unfolding update_call
update_call-Keeps env q fails =
    Triple-do_action env (write_call q)
      (λ h p. fails _ (IsBehind-spared q (failed (write_call q)) h refl p))
      (λ h p. IsCurrent-IsBehind q _ (IsCurrent-write q h p))

-- Requests that write no row of a call.
module _ (env : Environment) {E : Failing} {P : History → Type 0} (stable : IsStable spares_calls P)
    (fails : MayThrow E P) where
  pub quiet_action-Keeps : (a : Action) → spares_calls (did a) ≡ true → Keeps E P (do_action env a)
  quiet_action-Keeps a d = Keeps-do_action spares_calls stable fails env a d refl

  pub quiet_perform-Keeps : (a : Action) → spares_calls (did a) ≡ true → Keeps E P (perform env a)
  quiet_perform-Keeps a d = Keeps-perform spares_calls stable fails env a d refl

  pub record_event_at-Keeps :
      (id type : String) (o : EventOptions) (t : ℕ) → Keeps E P (record_event_at env id type o t)
  unfolding record_event_at append_ari_event
  record_event_at-Keeps id type o t = quiet_action-Keeps _ refl

  pub record_event_now-Keeps :
      (id type : String) (o : EventOptions) → Keeps E P (record_event_now env id type o)
  unfolding record_event_now
  record_event_now-Keeps id type o =
      Keeps-bind _ _ (Keeps-ask env _) (λ now. record_event_at-Keeps id type o now)

  pub emit_click2call_webhook-Keeps :
      (c : Call) (trigger : WebhookTrigger) (extra : WebhookExtra)
      → Keeps E P (emit_click2call_webhook env c trigger extra)
  unfolding emit_click2call_webhook
  emit_click2call_webhook-Keeps c trigger extra =
      Keeps-elim (present c.tenant_id) _ _ (Keeps-pure tt)
        (λ tenant. Keeps-bind _ _ (Keeps-ask env _) (λ now. quiet_action-Keeps _ refl))

  pub upsert_from_ari_channel-Keeps :
      (input : UpsertAriCallLegInput) → Keeps E P (upsert_from_ari_channel env input)
  unfolding upsert_from_ari_channel save_leg
  upsert_from_ari_channel-Keeps input = Keeps-bind _ _ (Keeps-ask env _) (λ found.
      Keeps-elim found _ _
        (Keeps-bind _ _ (Keeps-ask env _)
          (λ id. Keeps-then _ _ (quiet_action-Keeps _ refl) (Keeps-pure _)))
        (λ leg. Keeps-then _ _ (quiet_action-Keeps _ refl) (Keeps-pure _)))

-- A handler that starts from a row of the call, and leaves a monotone history however it ends.
abbrev pub IsSafe : Call → M (Unit {0}) → Type 0
IsSafe c m = Triple (always IsMonotone) (IsBehind c) m (λ _. IsMonotone)

pub IsMonotone-of : (c : Call) → MayThrow (always IsMonotone) (IsBehind c)
IsMonotone-of c h b = b.current.monotone

pub caught_row : (c : Call) → MayThrow (caught (always IsMonotone) (IsBehind c)) (IsBehind c)
caught_row c h b = b

pub IsSafe-Keeps :
    (c : Call) (m : M (Unit {0})) → Keeps (always IsMonotone) (IsBehind c) m → IsSafe c m
IsSafe-Keeps c m k = Triple-weaken k (λ h b. b) (λ a h b. b.current.monotone)

pub IsSafe-skip : (c : Call) → IsSafe c skip
IsSafe-skip c = Triple-pure tt (λ h b. b.current.monotone)

pub IsSafe-refine :
    (p q : Call) (m : M (Unit {0})) → p.id ≡ q.id → Refines p q → IsSafe q m → IsSafe p m
IsSafe-refine p q m same x t = Triple-weaken t (λ h b. IsBehind-refine p q h same x b) (λ a h b. b)

pub IsMonotone-fails : MayThrow (always IsMonotone) IsMonotone
IsMonotone-fails h m = m

pub not_set : {A : Type 0} (o : Option A) → is_some o ≡ false → o ≡ none
not_set none e = refl
not_set (some a) e = cc
