-- ===== src/Router/Dispatch.antt =====
-- Which workflow an event reaches.
use comm_care.Prelude.{
  String, ◌≡◌, refl, sym, ◌∙◌, ap, true, false, ◌↔◌, Option, none, some, [], ◌∷◌, List,
  if◌then◌else◌, ◌==◌, eq_iff, Bool-cases, inl, inr, Memᴰ,
}
use comm_care.Ari.{RawAriEventBody, can_handle}
use comm_care.Router.{
  WorkflowService, click2call, ivr, inbound_route, auto_attendant, queue, workflow, find_service,
}

service_named : String → Option WorkflowService
service_named name =
    if name == "click2call"
    then some click2call
    else if name == "ivr"
    then some ivr
    else if name == "inbound-route"
    then some inbound_route
    else if name == "auto-attendant"
    then some auto_attendant
    else if name == "queue"
    then some queue
    else none

service_named-workflow : (s : WorkflowService) → service_named (workflow s) ≡ some s
unfolding service_named
service_named-workflow click2call = refl
service_named-workflow ivr = refl
service_named-workflow inbound_route = refl
service_named-workflow auto_attendant = refl
service_named-workflow queue = refl

handled_name :
    (event : RawAriEventBody) (s : WorkflowService)
    → can_handle (workflow s) event ≡ true
    → (name : String) × (rest : List String) × (event.args ≡ name ∷ rest) × (name ≡ workflow s)
unfolding can_handle
handled_name event s handles = by_args event.args refl handles
  where
    by_args :
        (args : List String)
        → event.args ≡ args
        → (elim args [ [] ↦ false | w ∷ rest ↦ w == workflow s ]) ≡ true
        → (name : String) × (rest : List String) × (event.args ≡ name ∷ rest) × (name ≡ workflow s)
    by_args [] e h = cc
    by_args (w ∷ rest) e h = (w, rest, e, (eq_iff w (workflow s)).0 h)

-- No event can be handled by two workflows.
handled_once :
    (event : RawAriEventBody) (s t : WorkflowService)
    → can_handle (workflow s) event ≡ true
    → can_handle (workflow t) event ≡ true
    → s ≡ t
handled_once event s t hs ht =
    let a = handled_name event s hs in
    let b = handled_name event t ht in
    let names : workflow s ≡ workflow t = cc in
    let services : some s ≡ some t =
      sym (service_named-workflow s) ∙ ap service_named names ∙ service_named-workflow t in
    cc

-- A service of the list that can handle the event stands behind a first one that cannot.
among_others :
    (event : RawAriEventBody) (s t : WorkflowService) (ss : List WorkflowService)
    → can_handle (workflow t) event ≡ false
    → can_handle (workflow s) event ≡ true
    → Memᴰ s (t ∷ ss)
    → Memᴰ s ss
among_others event s t ss cannot can (Memᴰ.tail m) = m
among_others event s t ss cannot can (Memᴰ.head e) =
    let can_first : can_handle (workflow t) event ≡ true = rw e at can in cc

-- Among any services, in any order and with any repetitions, an event goes to a service exactly if
-- that is one of them and can handle the event: no two can, so it does not matter which is asked first.
pub find_service_iff :
    (ss : List WorkflowService) (event : RawAriEventBody) (s : WorkflowService)
    → (find_service ss event ≡ some s) ↔ (Memᴰ s ss × (can_handle (workflow s) event ≡ true))
unfolding find_service
find_service_iff [] event s = ((λ e. absurd (none-some e)), (λ m. elim m.0 [ ]))
  where
    none-some : {x : WorkflowService} → none ≡ some x → ⊥
    none-some n = cc
find_service_iff (t ∷ ss) event s = elim (Bool-cases (can_handle (workflow t) event)) [
  | inl can ↦ rw can (
    (λ e. let same : t ≡ s = cc in (Memᴰ.head (sym same), rw same at can)),
    (λ m. ap some (handled_once event t s can m.1)),
  )
  | inr cannot ↦
      let rest = find_service_iff ss event s in
      rw cannot (
        (λ e. let found = rest.0 e in (Memᴰ.tail found.0, found.1)),
        (λ m. rest.1 (among_others event s t ss cannot m.1 m.0, m.1)),
      )
]
