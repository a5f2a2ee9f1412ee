-- ===== src/InboundWorkflow/Served.antt =====
-- Every call that comes in on a number is answered or hung up, whichever workflow its route leads to.
use comm_care.Prelude.{
  ℕ, String, ◌≡◌, refl, ◌∙◌, arith, true, false, Option, none, some, present, holds_text, ◌==◌, inl,
  inr, Bool-cases,
}
use comm_care.Ari.{RawAriEventBody, InboundArgs, parse_inbound_args, QueueLeg}
use comm_care.Ari.RoundTrip.{parse-build_ivr_app_args, parse-build_queue_app_args}
use comm_care.Entities.{
  InboundRoute, RouteDestinationType, extension, ivr, queue, external_number, voicemail, hangup,
}
use comm_care.World.{Environment, History, World, M, answer_channel, ◌>>=◌, do_action}
use comm_care.World.Ensures.{Ensures, Triple-bind, Triple-weaken, Triple-ask, Triple-given}
use comm_care.World.Keeps.{
  Keeps, Keeps-pure, Keeps-ask, Keeps-bind, Keeps-then, Keeps-elim, Keeps-perform, Triple-elim,
}
use comm_care.World.Served.{
  IsServed, IsServed-stable, unless_thrown, answer-IsServed, hangup-IsServed,
}
use comm_care.QueueWorkflow.Served.{Serves, action-Keeps, handle_event-Serves}
use comm_care.IvrWorkflow.Handlers.{with_destination}
use comm_care.IvrWorkflow.Served.{handle_event-EntersIvr}
use comm_care.DialOut.{connect_to, connect_to_extension, connect_to_number}
use comm_care.InboundWorkflow.{execute_destination, follow_route, handle_stasis_start, handle_event}

present-nonempty : (o : Option String) (s : String) → present o ≡ some s → (s == "") ≡ false
present-nonempty none s e = cc
present-nonempty (some t) s e = elim (Bool-cases (t == "")) [
  | inl empty ↦ ground arith
  | inr full ↦ ground arith
]

module _ (env : Environment) where
  connect_to-Keeps :
      (channel : String) (a b : String) (caller : Option String)
      → Keeps (unless_thrown (IsServed channel)) (IsServed channel) (connect_to env a b caller)
  unfolding connect_to
  connect_to-Keeps channel a b caller =
      Keeps-bind _ _
        (Keeps-perform (λ e. true) (IsServed-stable channel) (λ h p. tt) env _ refl refl)
        (λ callee.
          Keeps-bind _ _
            (Keeps-perform (λ e. true) (IsServed-stable channel) (λ h p. tt) env _ refl refl)
            (λ bridge.
              Keeps-then _ _ (action-Keeps env (IsServed-stable channel) _)
                (action-Keeps env (IsServed-stable channel) _)))

  connect_to_extension-Keeps :
      (channel tenant_id : String) (id caller : Option String)
      → Keeps
          (unless_thrown (IsServed channel))
          (IsServed channel)
          (connect_to_extension env channel tenant_id id caller)
  unfolding connect_to_extension
  connect_to_extension-Keeps channel tenant_id id caller = Keeps-bind _ _ (Keeps-ask env _) (λ es.
      Keeps-elim _ _ _ (action-Keeps env (IsServed-stable channel) _)
        (λ e. connect_to-Keeps channel _ _ _))

  connect_to_number-Keeps :
      (channel : String) (number caller : Option String)
      → Keeps
          (unless_thrown (IsServed channel))
          (IsServed channel)
          (connect_to_number env channel number caller)
  unfolding connect_to_number
  connect_to_number-Keeps channel number caller =
      Keeps-elim (present number) _ _ (action-Keeps env (IsServed-stable channel) _)
        (λ n. connect_to-Keeps channel _ _ _)

  -- A destination that the route's channel is answered for first.
  answered-Serves :
      (channel : String) (m : M (Unit {0}))
      → Keeps (unless_thrown (IsServed channel)) (IsServed channel) m
      → Serves channel (do_action env (answer_channel channel) >>= λ _. m)
  answered-Serves channel m k = Triple-bind _ _ (answer-IsServed env channel) (λ _. k)

  with_destination-Serves :
      (channel : String) (id : Option String) (f : String → M (Unit {0}))
      → ((i : String) → (i == "") ≡ false → Serves channel (f i))
      → Serves channel (with_destination env channel id f)
  unfolding with_destination
  with_destination-Serves channel id f k =
      Triple-elim (present id) _ _ (λ _. hangup-IsServed env channel)
        (λ i e. k i (present-nonempty id i e))

  follow_route-Serves :
      (fuel : ℕ) (channel : String) (route : InboundRoute) (caller : String)
      (event : RawAriEventBody)
      → present event.channel_id ≡ some channel
      → (route.tenant_id == "") ≡ false
      → Serves channel (follow_route env fuel channel route caller event)
  unfolding follow_route execute_destination
  follow_route-Serves fuel channel route caller event on tenant = by_type route.destination_type
    where
      by_type :
          (t : RouteDestinationType)
          → Serves channel
              (follow_route env fuel channel (record route { destination_type = t }) caller event)
      by_type hangup = answered-Serves channel _ (action-Keeps env (IsServed-stable channel) _)
      by_type voicemail = answered-Serves channel _ (action-Keeps env (IsServed-stable channel) _)
      by_type extension = answered-Serves channel _ (connect_to_extension-Keeps channel _ _ _)
      by_type external_number = answered-Serves channel _ (connect_to_number-Keeps channel _ _)
      by_type ivr = Triple-bind _ _ (Keeps-pure tt) (λ _.
          with_destination-Serves channel route.destination_id _ (λ i nonempty.
            handle_event-EntersIvr env fuel _ channel _ refl on
              (parse-build_ivr_app_args route.tenant_id channel i tenant nonempty)))
      by_type queue = Triple-bind _ _ (Keeps-pure tt) (λ _.
          with_destination-Serves channel route.destination_id _ (λ i nonempty.
            handle_event-Serves env fuel _ channel route.tenant_id i refl on (
              parse-build_queue_app_args route.tenant_id i "" QueueLeg.caller none tenant
                nonempty)))

  -- A call that comes in on a number, with the number in its arguments, is answered or hung up, unless
  -- the handler throws: whether the number has a route or not, and wherever that leads (an extension, an
  -- external number, an IVR, a queue, voicemail or the end of the call), with any fuel for the queue. It is
  -- assumed that routes have a tenant.
  pub inbound_call-IsServed :
      ((h : History) (did : String) (route : InboundRoute)
        → env.enabled_route_by_did h did ≡ some route
        → (route.tenant_id == "") ≡ false)
      → (fuel : ℕ) (w : World) (event : RawAriEventBody) (channel : String) (parsed : InboundArgs)
      → holds_text event.type "StasisStart" ≡ true
      → present event.channel_id ≡ some channel
      → parse_inbound_args event.args ≡ some parsed
      → Ensures
          (unless_thrown (IsServed channel))
          (λ _. IsServed channel)
          (handle_event env fuel event w)
  unfolding handle_event handle_stasis_start
  inbound_call-IsServed tenants fuel w event channel parsed type on read =
      rw (type, handle_stasis_start, on, read)
        ((Triple-bind {P = λ h. Unit {0}} _ _
            (Triple-ask env (λ h. env.enabled_route_by_did h parsed.did))
            (λ found.
              Triple-elim found _ _ (λ _. hangup-IsServed env channel)
                (λ route e.
                  Triple-given (λ h m. tenants h parsed.did route (m.1 ∙ e))
                    (λ tenant.
                      Triple-weaken
                        (follow_route-Serves fuel channel route parsed.caller_number event on
                          tenant)
                        (λ h m. tt) (λ a h m. m))))).at
          w tt)
