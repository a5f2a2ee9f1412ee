-- ===== src/Extensions/Assigning.antt =====
-- Reservation and assignment keep the tables sound: each extension that is taken is a row of the table,
-- and the rows keep their ids and numbers.
use comm_care.Prelude.{
  ℕ, zero, suc, String, ◌≡◌, refl, sym, ◌∙◌, subst, arith, true, not, ◌&&◌, Bool-cases, inl, inr,
  Option, none, List, [], ◌∷◌, map, keep, every, leb, eqb, is_some, All, All-keep, All-kept,
  All-weaken, All-both, All-map, length,
}
use comm_care.Entities.{
  Extension, ExtensionStatus, available, reserved, assigned, disabled, UserInfo,
}
use comm_care.Office.{Tables, Outside, write, bad_request, not_found}
use comm_care.Office.Rows.{update_all, take}
use comm_care.Office.Rules.{
  Contract, Contract-pure, Contract-query, Contract-or_throw, Contract-write, Contract-throw_if,
  Contract-bind, Contract-weaken, Contract-given,
}
use comm_care.Extensions.{
  extension_id, with_extensions, is_free, order_by_number, insert_by_number, chosen, has_status,
  reserve_available_for_tenant, reserved_for, may_be_assigned, is_named, assigned_to,
  assign_reserved_extensions_to_user,
}
use comm_care.Extensions.Service
use comm_care.Extensions.Service.{
  CreateExtensionInput, with_counter, read_counter, increment_counter, allocate, allocate_locked,
  get_next_extension_id, create_pool_extension, build_extension_entity, publish_creates,
  ensure_available_extension_pool, replenish_count,
}
use comm_care.Extensions.Keys.{Known}
use comm_care.Extensions.Sound.{StatusFits, IsTidy, update_all-IsSound}
use comm_care.Extensions.Kept.{
  sound, Keeps, IsAt, IsRow, at_keys, IsAt-rows, provision_each-Contract,
}

-- What holds of every row holds of the rows that a reservation takes.
All-insert :
    (P : Extension → Type 0) (e : Extension) (es : List Extension)
    → P e
    → All P es
    → All P (insert_by_number e es)
All-insert P e [] p h = (p, tt)
All-insert P e (f ∷ fs) p h = elim (Bool-cases (leb e.number f.number)) [
  | inl first ↦ rw first (p, h)
  | inr later ↦ rw later (h.0, All-insert P e fs p h.1)
]

All-order : (P : Extension → Type 0) (es : List Extension) → All P es → All P (order_by_number es)
All-order P [] h = tt
All-order P (e ∷ es) h = All-insert P e (order_by_number es) h.0 (All-order P es h.1)

All-take : (P : Extension → Type 0) (n : ℕ) (es : List Extension) → All P es → All P (take n es)
All-take P zero es h = tt
All-take P (suc n) [] h = tt
All-take P (suc n) (e ∷ es) h = (h.0, All-take P n es h.1)

pub All-chosen :
    (P : Extension → Type 0) (n : ℕ) (es : List Extension)
    → All (λ e. P e × (is_free e ≡ true)) (keep is_free es)
    → All (λ e. P e × (is_free e ≡ true)) (chosen n es)
unfolding chosen
All-chosen P n es h = All-take _ n _ (All-order _ (keep is_free es) h)

chosen-rows :
    (keys : List (String × ℕ)) (n : ℕ) (t : Tables)
    → IsAt keys t
    → All (λ e. IsRow keys e × (is_free e ≡ true)) (chosen n t.extensions)
chosen-rows keys n t a = All-chosen (IsRow keys) n t.extensions (
    All-both _ _ _ (All-keep (IsRow keys) is_free t.extensions (IsAt-rows a))
      (All-kept is_free t.extensions))

free-no_user :
    (s : ExtensionStatus) (tenant user : Option String)
    → StatusFits s tenant user
    → (has_status s available && not (is_some tenant)) ≡ true
    → user ≡ none
free-no_user available tenant user fits free = fits.1
free-no_user reserved tenant user fits free = cc
free-no_user assigned tenant user fits free = cc
free-no_user disabled tenant user fits free = cc

pub named-tenant :
    (ids : List String) (tenant_id : String) (e : Extension)
    → is_named ids tenant_id e ≡ true
    → is_some e.tenant_id ≡ true
named-tenant ids tenant_id e named = ground arith

module _ (keys : List (String × ℕ)) where
  -- Loaded rows are changed and saved, in one transaction.
  update_all-Contract :
      (es : List Extension)
      → All (IsRow keys) es
      → Contract sound
          (IsAt keys)
          (write (λ t. with_extensions t (update_all extension_id es t.extensions)))
          (λ _. IsAt keys)
  update_all-Contract es rows = Contract-write _ (λ t a.
      let known : All (Known keys) es = All-weaken (IsRow keys) _ es (λ e r. r.0) rows in
      let tidy : All IsTidy es = All-weaken (IsRow keys) _ es (λ e r. r.1) rows in
      let kept =
        update_all-IsSound t a.is_sound es (subst (λ ks. All (Known ks) es) (sym a.same) known)
          tidy in
      record { is_sound = kept.0; same = kept.1 ∙ a.same })

  reserve-Contract :
      (tenant_id : String) (n : ℕ)
      → Contract sound (IsAt keys) (reserve_available_for_tenant tenant_id n) (λ _. IsAt keys)
  unfolding reserve_available_for_tenant reserved_for
  reserve-Contract tenant_id n =
      Contract-bind {Q = λ es t. IsAt keys t × All (IsRow keys) es} _ _
        (Contract-query _ (λ t a. (
          a,
          All-map (reserved_for tenant_id) (IsRow keys) (chosen n t.extensions) (
              All-weaken _ (λ e. IsRow keys (reserved_for tenant_id e)) _
                (λ e r. (r.0.0, (refl, free-no_user e.status e.tenant_id e.user_id r.0.1 r.1)))
                (chosen-rows keys n t a)),
        )))
        (λ es.
          Contract-given (All (IsRow keys) es) (λ t p. p.1)
            (λ rows.
              Contract-bind {Q = λ _. IsAt keys} _ _
                (Contract-weaken _ (λ t p. p.0) (λ _ t a. a) (update_all-Contract es rows))
                (λ _. Contract-pure es (λ t a. a))))

  assign_reserved-Contract :
      (tenant_id : String) (ids : List String) (info : UserInfo)
      → Contract sound
          (IsAt keys)
          (assign_reserved_extensions_to_user tenant_id ids info)
          (λ es t. IsAt keys t × All (IsRow keys) es)
  unfolding assign_reserved_extensions_to_user assigned_to
  assign_reserved-Contract tenant_id ids info =
      Contract-bind
        {Q = λ es t. IsAt keys t × All (λ e. IsRow keys e × (is_named ids tenant_id e ≡ true)) es} _
        _
        (Contract-query _ (λ t a. (
          a,
          All-both _ _ _ (All-keep (IsRow keys) (is_named ids tenant_id) t.extensions (IsAt-rows a))
              (All-kept (is_named ids tenant_id) t.extensions),
        )))
        (λ found.
          Contract-given _ (λ t p. p.1)
            (λ rows.
              Contract-bind {Q = λ _. IsAt keys} _ _
                (Contract-throw_if (not (eqb (length found) (length ids))) not_found
                  (λ t p e. p.0.is_sound) (λ t p e. p.0))
                (λ _.
                  Contract-bind {Q = λ _. IsAt keys} _ _
                    (Contract-throw_if (not (every may_be_assigned found)) bad_request
                      (λ t a e. a.is_sound) (λ t a e. a))
                    (λ _.
                      let owned : All (IsRow keys) (map (assigned_to info) found) =
                        All-map (assigned_to info) (IsRow keys) found (
                          All-weaken _ (λ e. IsRow keys (assigned_to info e)) found
                            (λ e r. (r.0.0, (named-tenant ids tenant_id e r.1, refl))) rows) in
                      Contract-bind {Q = λ _. IsAt keys} _ _
                        (update_all-Contract (map (assigned_to info) found) owned)
                        (λ _. Contract-pure (map (assigned_to info) found) (λ t a. (a, owned)))))))

module _ (out : Outside) (tenant_id : String) where
  pub assign_one_available_to_tenant-Keeps :
      Keeps (Service.assign_one_available_to_tenant out tenant_id)
  unfolding Service.assign_one_available_to_tenant
  assign_one_available_to_tenant-Keeps = at_keys _ (λ keys.
      Contract-bind {Q = λ _. IsAt keys} _ _ (reserve-Contract keys tenant_id 1)
        (λ es. Contract-or_throw bad_request _ (λ t a e. a.is_sound) (λ x t a e. a.is_sound)))

  pub assign_available_to_tenant-Keeps :
      (n : ℕ) → Keeps (Service.assign_available_to_tenant out tenant_id n)
  unfolding Service.assign_available_to_tenant
  assign_available_to_tenant-Keeps n = at_keys _ (λ keys.
      Contract-bind {Q = λ _. IsAt keys} _ _ (reserve-Contract keys tenant_id n) (λ es.
        Contract-bind {Q = λ _. IsAt keys} _ _
          (Contract-throw_if _ bad_request (λ t a e. a.is_sound) (λ t a e. a))
          (λ _. Contract-pure es (λ t a. a.is_sound))))

  pub assign_extensions_to_user-Keeps :
      (ids : List String) (info : UserInfo)
      → Keeps (Service.assign_extensions_to_user out tenant_id ids info)
  unfolding Service.assign_extensions_to_user
  assign_extensions_to_user-Keeps ids info = at_keys _ (λ keys.
      Contract-bind _ _ (assign_reserved-Contract keys tenant_id ids info) (λ es.
        Contract-given (All (IsRow keys) es) (λ t p. p.1)
          (λ rows.
            Contract-bind {Q = λ _. IsAt keys} _ _
              (Contract-weaken _ (λ t p. p.0) (λ _ t a. a)
                (provision_each-Contract keys out _ es rows))
              (λ _. Contract-pure es (λ t a. a.is_sound)))))
