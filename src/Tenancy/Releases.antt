-- ===== src/Tenancy/Releases.antt =====
-- Reserving one extension, taking it from its user and taking it from its tenant are counted.
use comm_care.Prelude.{
  String, ◌≡◌, refl, sym, ap, subst, arith, Bool, true, false, not, ◌&&◌, inl, inr, Option, none,
  some, List, [], ◌∷◌, map, eq_iff, is_some, holds_text, keep, All, All-keep, All-kept, All-both,
  ◌⊎◌,
}
use comm_care.Entities.{Extension, ExtensionStatus, available, reserved, assigned, disabled}
use comm_care.Office.{Tables, Outside, Task, ◌>>=◌, or_throw, bad_request, not_found}
use comm_care.Office.Rows.{All-find_by_id, update_all, find_by_id, take}
use comm_care.Office.Rules.{
  Contract, Contract-pure, Contract-throw, Contract-query, Contract-or_throw, Contract-write,
  Contract-throw_if, Contract-bind, Contract-weaken, Contract-request, Contract-given,
}
use comm_care.Extensions.{
  extension_id, with_extensions, of_tenant, is_free, order_by_number, chosen, reserved_for,
  has_status, reserve_available_for_tenant, get_extension_for_tenant,
}
use comm_care.Extensions.Service
use comm_care.Extensions.Service.{
  publish_creates, ensure_available_extension_pool, replenish_count, without_user, without_tenant,
}
use comm_care.Extensions.Sound.{StatusFits, IsSound}
use comm_care.Extensions.Assigning.{All-chosen}
use comm_care.Tenancy.{change_tenant, count_reserved, count_unassigned, count_unregistered}
use comm_care.Tenancy.Quota.{
  count_reserved-Counts, count_unassigned-Counts, count_unregistered-Counts,
}
use comm_care.Tenancy.Changes.{reserve-Moves, unassign-Moves, unregister-Moves}
use comm_care.Tenancy.Counted.{
  InStepAfter, InStep, in_step, IsHere, rows-IsHere, ensure-Contract, update-InStepAfter,
  save-InStepAfter,
}

free-state :
    (s : ExtensionStatus) (tenant : Option String)
    → (has_status s available && not (is_some tenant)) ≡ true
    → (s ≡ available) × (tenant ≡ none)
free-state available none h = (refl, refl)
free-state available (some t) h = cc
free-state reserved tenant h = cc
free-state assigned tenant h = cc
free-state disabled tenant h = cc

held-state : (tenant : Option String) (id : String) → holds_text tenant id ≡ true → tenant ≡ some id
held-state none id h = cc
held-state (some t) id h = ap some ((eq_iff t id).0 h)

-- A tidy row with a tenant is assigned if it has a user, and reserved if it has none.
used-state :
    (s : ExtensionStatus) (tenant user : Option String)
    → StatusFits s tenant user
    → is_some tenant ≡ true
    → ((is_some user ≡ true) → s ≡ assigned) × ((is_some user ≡ false) → s ≡ reserved)
used-state available tenant user h t = absurd (no-tenant tenant h.0 t)
  where
    no-tenant : (o : Option String) → o ≡ none → is_some o ≡ true → ⊥
    no-tenant o e m = cc
used-state reserved tenant user h t = ((λ u. absurd (no-user user h.1 u)), λ u. refl)
  where
    no-user : (o : Option String) → o ≡ none → is_some o ≡ true → ⊥
    no-user o e m = cc
used-state assigned tenant user h t = ((λ u. refl), λ u. absurd (both (is_some user) h.1 u))
  where
    both : (b : Bool) → b ≡ true → b ≡ false → ⊥
    both b p q = cc
used-state disabled tenant user h t = absurd h

module _ (id : String) where
  -- What a reservation of one extension finds.
  IsPicked : List Extension → Tables → Type 0
  IsPicked es t =
      (es ≡ [])
      ⊎ ((x : Extension) × ((es ≡ reserved_for id x ∷ []) × (IsHere x t × (is_free x ≡ true))))

  pick :
      (P : Extension → Type 0) (es : List Extension)
      → All P (take 1 es)
      → (map (reserved_for id) (take 1 es) ≡ [])
        ⊎ ((x : Extension) × ((map (reserved_for id) (take 1 es) ≡ reserved_for id x ∷ []) × P x))
  pick P [] h = inl refl
  pick P (x ∷ es) h = inr (x, (refl, h.0))

  chosen-IsPicked :
      (t : Tables) → IsSound t → IsPicked (map (reserved_for id) (chosen 1 t.extensions)) t
  unfolding chosen IsPicked
  chosen-IsPicked t s =
      pick (λ x. IsHere x t × (is_free x ≡ true)) (order_by_number (keep is_free t.extensions))
        (All-chosen (λ x. IsHere x t) 1 t.extensions
          (All-both _ _ _ (All-keep (λ x. IsHere x t) is_free t.extensions (rows-IsHere t s))
            (All-kept is_free t.extensions)))

  -- Where something was taken, it is to be counted.
  IsTaken : List Extension → Tables → Type 0
  IsTaken [] t = InStep t
  IsTaken (e ∷ es) t = InStepAfter (change_tenant id (count_reserved 1)) t

  no_update : (xs : List Extension) → update_all extension_id [] xs ≡ xs
  unfolding update_all find_by_id
  no_update [] = refl
  no_update (x ∷ xs) = ap (λ r. x ∷ r) (no_update xs)

  take-InStepAfter :
      (t : Tables) (x : Extension)
      → InStep t
      → IsHere x t
      → is_free x ≡ true
      → InStepAfter
          (change_tenant id (count_reserved 1))
          (with_extensions t (update_all extension_id (reserved_for id x ∷ []) t.extensions))
  unfolding reserved_for
  take-InStepAfter t x s here free =
      let state = free-state x.status x.tenant_id free in
      let fits : StatusFits available x.tenant_id x.user_id =
        subst (λ st. StatusFits st x.tenant_id x.user_id) state.0 here.tidy in
      update-InStepAfter id (change_tenant id (count_reserved 1)) x (reserved_for id x) refl refl
        (refl, fits.1)
        (λ es ts alone found h.
          count_reserved-Counts id es _ 1 ts (reserve-Moves id es alone x found state.0 state.1) h)
        t s here

  picked-IsTaken :
      (es : List Extension) (t : Tables)
      → InStep t × IsPicked es t
      → IsTaken es (with_extensions t (update_all extension_id es t.extensions))
  unfolding IsTaken IsPicked
  picked-IsTaken es t (s, inl e) =
      subst (λ l. IsTaken l (with_extensions t (update_all extension_id l t.extensions))) (sym e)
        (subst (λ xs. InStep (with_extensions t xs)) (sym (no_update t.extensions)) s)
  picked-IsTaken es t (s, inr (x, (e, (here, free)))) =
      subst (λ l. IsTaken l (with_extensions t (update_all extension_id l t.extensions))) (sym e)
        (take-InStepAfter t x s here free)

  pub assign_one-InStepAfter :
      (out : Outside)
      → Contract in_step InStep
          (Service.assign_one_available_to_tenant out id)
          (λ _. InStepAfter (change_tenant id (count_reserved 1)))
  unfolding Service.assign_one_available_to_tenant reserve_available_for_tenant IsTaken
  assign_one-InStepAfter out =
      Contract-bind {Q = IsTaken} _ _
        (Contract-bind {Q = λ es t. InStep t × IsPicked es t} _ _
          (Contract-query _ (λ t s. (s, chosen-IsPicked t s.0)))
          (λ es.
            Contract-bind {Q = λ _. IsTaken es} _ _ (Contract-write _ (picked-IsTaken es))
              (λ _. Contract-pure es (λ t p. p))))
        (λ es. given-taken es)
    where
      given-taken :
          (es : List Extension)
          → Contract in_step
              (IsTaken es)
              (or_throw bad_request (elim es [ [] ↦ none | e ∷ es' ↦ some e ]))
              (λ _. InStepAfter (change_tenant id (count_reserved 1)))
      given-taken [] = Contract-throw bad_request (λ t s. s)
      given-taken (e ∷ es) = Contract-pure e (λ t s. s)

  -- `getExtensionForTenant`, and the throw where nothing is found.
  find-InStepAfter :
      {A : Type 0} {Q : A → Tables → Type 0} (ext_id : String) (f : Extension → Task A)
      → ((e : Extension)
          → e.tenant_id ≡ some id
          → Contract in_step (λ t. InStep t × IsHere e t) (f e) Q)
      → Contract in_step InStep
          (get_extension_for_tenant id ext_id >>= λ found. or_throw not_found found >>= f)
          Q
  unfolding get_extension_for_tenant
  find-InStepAfter ext_id f c =
      Contract-bind
        {Q = λ o t.
          InStep t × ((e : Extension) → o ≡ some e → IsHere e t × (of_tenant id e ≡ true))}
        _ _
        (Contract-query _ (λ t s. (
          s,
          λ e found.
              All-find_by_id extension_id (λ x. IsHere x t × (of_tenant id x ≡ true)) ext_id
                (keep (of_tenant id) t.extensions) e
                (All-both _ _ _
                  (All-keep (λ x. IsHere x t) (of_tenant id) t.extensions (rows-IsHere t s.0))
                  (All-kept (of_tenant id) t.extensions))
                found,
        )))
        (λ o.
          Contract-bind {Q = λ e t. (InStep t × IsHere e t) × (of_tenant id e ≡ true)} _ _
            (Contract-or_throw not_found o (λ t p e. p.0)
              (λ e t p found. let here = p.1 e found in ((p.0, here.0), here.1)))
            (λ e.
              Contract-given (of_tenant id e ≡ true) (λ t p. p.1)
                (λ mine.
                  Contract-weaken (f e) (λ t p. p.0) (λ a t q. q)
                    (c e (held-state e.tenant_id id mine)))))

  -- The row's status says whether it has a user.
  here-used :
      (e : Extension) (t : Tables)
      → e.tenant_id ≡ some id
      → IsHere e t
      → ((is_some e.user_id ≡ true) → e.status ≡ assigned)
        × ((is_some e.user_id ≡ false) → e.status ≡ reserved)
  here-used e t mine here = used-state e.status e.tenant_id e.user_id here.tidy (ap is_some mine)

  pub unassign-InStepAfter :
      (out : Outside) (ext_id : String)
      → Contract in_step InStep
          (Service.unassign_extension_for_tenant out id ext_id)
          (λ _. InStepAfter (change_tenant id count_unassigned))
  unfolding Service.unassign_extension_for_tenant Service.provision_and_save without_user
  unassign-InStepAfter out ext_id = find-InStepAfter ext_id _ (λ e mine.
      Contract-bind {Q = λ _ t. (InStep t × IsHere e t) × (e.status ≡ assigned)} _ _
        (Contract-throw_if (not (is_some e.user_id)) bad_request (λ t p h. p.0)
          (λ t p h. (p, (here-used e t mine p.1).0 (ground arith))))
        (λ _.
          Contract-given (e.status ≡ assigned) (λ t p. p.1)
            (λ used.
              Contract-bind {Q = λ _. InStepAfter (change_tenant id count_unassigned)} _ _
                (Contract-weaken _ (λ t p. p.0) (λ a t q. q)
                  (Contract-bind {Q = λ _ t. InStep t × IsHere e t} _ _
                    (Contract-request out _ (λ t p. tt))
                    (λ _.
                      save-InStepAfter id (change_tenant id count_unassigned) e (without_user e)
                        refl refl (ap is_some mine, refl)
                        (λ es ts alone found h.
                          count_unassigned-Counts id es _ ts
                            (unassign-Moves id es alone e found used mine) h))))
                (λ _. Contract-pure (without_user e) (λ t q. q)))))

  pub unregister-InStepAfter :
      (out : Outside) (ext_id : String)
      → Contract in_step InStep
          (Service.unregister_extension_from_tenant out id ext_id)
          (λ _. InStepAfter (change_tenant id count_unregistered))
  unfolding Service.unregister_extension_from_tenant without_tenant
  unregister-InStepAfter out ext_id = find-InStepAfter ext_id _ (λ e mine.
      Contract-bind {Q = λ _ t. (InStep t × IsHere e t) × (is_some e.user_id ≡ false)} _ _
        (Contract-throw_if (is_some e.user_id) bad_request (λ t p h. p.0) (λ t p h. (p, h)))
        (λ _.
          Contract-given ((e.status ≡ reserved) × (e.user_id ≡ none))
            (λ t p. ((here-used e t mine p.0.1).1 p.1, no_user e.user_id p.1))
            (λ free.
              Contract-bind {Q = λ _. InStepAfter (change_tenant id count_unregistered)} _ _
                (Contract-weaken _ (λ t p. p.0) (λ a t q. q)
                  (save-InStepAfter id (change_tenant id count_unregistered) e (without_tenant e)
                    refl refl (refl, free.1)
                    (λ es ts alone found h.
                      count_unregistered-Counts id es _ ts
                        (unregister-Moves id es alone e found free.0 mine) h)))
                (λ _.
                  Contract-bind {Q = λ _. InStepAfter (change_tenant id count_unregistered)} _ _
                    (ensure-Contract out) (λ _. Contract-pure (without_tenant e) (λ t q. q))))))
    where
      no_user : (o : Option String) → is_some o ≡ false → o ≡ none
      no_user none h = refl
      no_user (some u) h = cc
