-- ===== src/Extensions/Kept.antt =====
-- The operations on extensions keep the tables sound, whether they return or throw.
use comm_care.Prelude.{
  ◌+◌, ℕ, zero, suc, String, ◌≡◌, refl, sym, ◌∙◌, subst, arith, Bool, true, false, none, some, List,
  [], ◌∷◌, map, keep, leb, is_some, All, All-keep, All-kept, All-both,
}
use comm_care.Entities.{Extension}
use comm_care.Office.{
  Tables, Outside, Request, Task, pure, ◌>>=◌, request, for_each, throw_if, or_throw, bad_request,
  not_found, upsert_pjsip,
}
use comm_care.Office.Rows.{All-find_by_id}
use comm_care.Office.Rules.{
  Throwing, Contract, Contract-pure, Contract-query, Contract-or_throw, Contract-write,
  Contract-throw_if, Contract-bind, Contract-weaken, Contract-request, Contract-given, Contract-if,
}
use comm_care.Extensions.{
  extension_id, of_tenant, save_extension, get_extension_for_tenant, get_extensions_by_user_id,
  of_user, count_available, get_extension, delete_row,
}
use comm_care.Extensions.Service
use comm_care.Extensions.Service.{
  CreateExtensionInput, with_counter, read_counter, increment_counter, allocate, allocate_locked,
  get_next_extension_id, create_pool_extension, build_extension_entity, publish_creates,
  ensure_available_extension_pool, replenish_count,
}
use comm_care.Extensions.Keys.{key, Known}
use comm_care.Extensions.Sound.{IsTidy, IsSound, IsSound-Known, save-IsSound, delete-IsSound}

abbrev pub sound : Throwing
sound x = IsSound

abbrev pub Keeps : {A : Type 0} → Task A → Type 0
Keeps m = Contract sound IsSound m (λ _. IsSound)

-- Sound tables with these ids and numbers.
pub record IsAt (keys : List (String × ℕ)) (t : Tables) : Type 0 where
  pub is_sound : IsSound t
  pub same : map key t.extensions ≡ keys

-- What every extension that a query finds is.
abbrev pub IsRow : List (String × ℕ) → Extension → Type 0
IsRow keys e = Known keys e × IsTidy e

pub at_keys :
    {A : Type 0} (m : Task A)
    → ((keys : List (String × ℕ)) → Contract sound (IsAt keys) m (λ _. IsSound))
    → Keeps m
at_keys m c = record {
  at = λ o s. (c (map key o.tables.extensions)).at o (record { is_sound = s; same = refl });
}

pub IsAt-rows :
    {keys : List (String × ℕ)} {t : Tables} → IsAt keys t → All (IsRow keys) t.extensions
IsAt-rows {keys} {t} a =
    All-both (Known keys) IsTidy t.extensions
      (subst (λ ks. All (Known ks) t.extensions) a.same (IsSound-Known a.is_sound)) a.is_sound.tidy

module _ (keys : List (String × ℕ)) where
  save_extension-Contract :
      (e : Extension)
      → IsRow keys e
      → Contract sound (IsAt keys) (save_extension e) (λ _. IsAt keys)
  unfolding save_extension
  save_extension-Contract e row = Contract-write _ (λ t a.
      let kept = save-IsSound t a.is_sound e (subst (λ ks. Known ks e) (sym a.same) row.0) row.1 in
      record { is_sound = kept.0; same = kept.1 ∙ a.same })

  request-Contract :
      (out : Outside) (r : Request) → Contract sound (IsAt keys) (request out r) (λ _. IsAt keys)
  request-Contract out r = Contract-request out r (λ t a. a.is_sound)

  provision-Contract :
      (out : Outside) (e : Extension)
      → IsRow keys e
      → Contract sound (IsAt keys) (Service.provision_and_save out e) (λ _. IsAt keys)
  unfolding Service.provision_and_save
  provision-Contract out e row =
      Contract-bind _ _ (request-Contract out (upsert_pjsip e)) (λ _. save_extension-Contract e row)

  -- Each extension of a list is provisioned and saved.
  pub provision_each-Contract :
      (out : Outside) (f : Extension → Extension) (es : List Extension)
      → All (λ e. IsRow keys (f e)) es
      → Contract sound
          (IsAt keys)
          (for_each (λ e. Service.provision_and_save out (f e)) es)
          (λ _. IsAt keys)
  unfolding for_each
  provision_each-Contract out f [] rows = Contract-pure tt (λ t a. a)
  provision_each-Contract out f (e ∷ es) rows =
      Contract-bind _ _ (provision-Contract out (f e) rows.0)
        (λ _. provision_each-Contract out f es rows.1)

module _ (keys : List (String × ℕ)) (tenant_id id : String) where
  IsTenantRow : Extension → Type 0
  IsTenantRow e = IsRow keys e × (of_tenant tenant_id e ≡ true)

  -- `getExtensionForTenant`, and the throw where nothing is found.
  find-Contract :
      {A : Type 0} (f : Extension → Task A)
      → ((e : Extension)
          → IsRow keys e
          → of_tenant tenant_id e ≡ true
          → Contract sound (IsAt keys) (f e) (λ _. IsSound))
      → Contract sound
          (IsAt keys)
          (get_extension_for_tenant tenant_id id >>= λ found. or_throw not_found found >>= f)
          (λ _. IsSound)
  unfolding get_extension_for_tenant IsTenantRow
  find-Contract f c =
      Contract-bind {Q = λ o t. IsAt keys t × ((e : Extension) → o ≡ some e → IsTenantRow e)} _ _
        (Contract-query _ (λ t a. (
          a,
          λ e found.
              All-find_by_id extension_id IsTenantRow id (keep (of_tenant tenant_id) t.extensions) e
                (All-both _ _ _
                  (All-keep (IsRow keys) (of_tenant tenant_id) t.extensions (IsAt-rows a))
                  (All-kept (of_tenant tenant_id) t.extensions))
                found,
        )))
        (λ o.
          Contract-bind {Q = λ e t. IsAt keys t × IsTenantRow e} _ _
            (Contract-or_throw not_found o (λ t p e. p.0.is_sound)
              (λ e t p found. (p.0, p.1 e found)))
            (λ e.
              Contract-given (IsTenantRow e) (λ t p. p.1)
                (λ row. Contract-weaken (f e) (λ t p. p.0) (λ a t s. s) (c e row.0 row.1))))

module _ (out : Outside) (tenant_id id : String) where
  leave_user :
      (keys : List (String × ℕ)) (e : Extension)
      → IsRow keys e
      → of_tenant tenant_id e ≡ true
      → IsRow keys (Service.without_user e)
  unfolding Service.without_user
  leave_user keys e row mine = (row.0, ground arith)

  -- The row without its user is provisioned, saved and returned.
  leave_user-Contract :
      (keys : List (String × ℕ)) (refused : Bool) (e : Extension)
      → IsRow keys e
      → of_tenant tenant_id e ≡ true
      → Contract sound
          (IsAt keys)
          (throw_if refused bad_request >>= λ _.
            Service.provision_and_save out (Service.without_user e) >>= λ _.
            pure (Service.without_user e))
          (λ _. IsSound)
  leave_user-Contract keys refused e row mine =
      Contract-bind {Q = λ _. IsAt keys} _ _
        (Contract-throw_if refused bad_request (λ t a h. a.is_sound) (λ t a h. a))
        (λ _.
          Contract-bind {Q = λ _. IsAt keys} _ _
            (provision-Contract keys out (Service.without_user e) (leave_user keys e row mine))
            (λ _. Contract-pure (Service.without_user e) (λ t a. a.is_sound)))

  pub unassign_extension_for_tenant-Keeps :
      Keeps (Service.unassign_extension_for_tenant out tenant_id id)
  unfolding Service.unassign_extension_for_tenant
  unassign_extension_for_tenant-Keeps =
      at_keys _ (λ keys. find-Contract keys tenant_id id _ (λ e. leave_user-Contract keys _ e))

  pub unassign_extension_from_user-Keeps :
      (user_id : String) → Keeps (Service.unassign_extension_from_user out tenant_id id user_id)
  unfolding Service.unassign_extension_from_user
  unassign_extension_from_user-Keeps user_id =
      at_keys _ (λ keys. find-Contract keys tenant_id id _ (λ e. leave_user-Contract keys _ e))

  leave_tenant :
      (keys : List (String × ℕ)) (e : Extension)
      → IsRow keys e
      → is_some e.user_id ≡ false
      → IsRow keys (Service.without_tenant e)
  unfolding Service.without_tenant
  leave_tenant keys e row free = (row.0, (refl, ground arith))

publish_creates-Contract :
    (out : Outside) (batch_id : String) (index left : ℕ)
    → Keeps (publish_creates out batch_id index left)
unfolding publish_creates
publish_creates-Contract out batch_id index zero = Contract-pure tt (λ t s. s)
publish_creates-Contract out batch_id index (suc left) =
    Contract-bind _ _ (Contract-request out _ (λ t s. s))
      (λ _. publish_creates-Contract out batch_id (index + 1) left)

pub ensure_available_extension_pool-Keeps :
    (out : Outside) → Keeps (ensure_available_extension_pool out)
unfolding ensure_available_extension_pool count_available
ensure_available_extension_pool-Keeps out =
    Contract-bind {Q = λ _. IsSound} _ _ (Contract-query _ (λ t s. s)) (λ free.
      Contract-if (leb 100 free) (λ many. Contract-pure none (λ t s. s))
        (λ few. Contract-bind {Q = λ _. IsSound} _ _ (Contract-query _ (λ t s. s)) (λ batch_id.
          Contract-bind {Q = λ _. IsSound} _ _ (publish_creates-Contract out batch_id 0 _)
            (λ _. Contract-pure (some (batch_id, replenish_count free)) (λ t s. s)))))

module _ (out : Outside) (tenant_id : String) where
  pub unregister_extension_from_tenant-Keeps :
      (id : String) → Keeps (Service.unregister_extension_from_tenant out tenant_id id)
  unfolding Service.unregister_extension_from_tenant
  unregister_extension_from_tenant-Keeps id = at_keys _ (λ keys.
      find-Contract keys tenant_id id _ (λ e row mine.
        Contract-bind {Q = λ _ t. IsAt keys t × (is_some e.user_id ≡ false)} _ _
          (Contract-throw_if _ bad_request (λ t a h. a.is_sound) (λ t a h. (a, h)))
          (λ _.
            Contract-given (is_some e.user_id ≡ false) (λ t p. p.1)
              (λ free.
                Contract-bind {Q = λ _. IsAt keys} _ _
                  (Contract-weaken _ (λ t p. p.0) (λ _ t a. a)
                    (save_extension-Contract keys (Service.without_tenant e)
                      (leave_tenant out tenant_id id keys e row free)))
                  (λ _.
                    Contract-bind {Q = λ _. IsSound} _ _
                      (Contract-weaken _ (λ t a. a.is_sound) (λ _ t s. s)
                        (ensure_available_extension_pool-Keeps out))
                      (λ _. Contract-pure (Service.without_tenant e) (λ t s. s)))))))

pub sync_user_info_on_extensions-Keeps :
    (out : Outside) (user_id name : String)
    → Keeps (Service.sync_user_info_on_extensions out user_id name)
unfolding Service.sync_user_info_on_extensions get_extensions_by_user_id
sync_user_info_on_extensions-Keeps out user_id name = at_keys _ (λ keys.
    Contract-bind {Q = λ es t. IsAt keys t × All (IsRow keys) es} _ _
      (Contract-query _
        (λ t a. (a, All-keep (IsRow keys) (of_user user_id) t.extensions (IsAt-rows a))))
      (λ es.
        Contract-given (All (IsRow keys) es) (λ t p. p.1)
          (λ rows.
            Contract-weaken _ (λ t p. p.0) (λ _ t a. a.is_sound)
              (provision_each-Contract keys out _ es rows))))

pub delete_extension-Keeps : (out : Outside) (id : String) → Keeps (Service.delete_extension out id)
unfolding Service.delete_extension get_extension delete_row
delete_extension-Keeps out id =
    Contract-bind {Q = λ _. IsSound} _ _ (Contract-query _ (λ t s. s)) (λ o.
      Contract-bind {Q = λ _. IsSound} _ _
        (Contract-or_throw not_found o (λ t s h. s) (λ e t s h. s))
        (λ e.
          Contract-bind {Q = λ _. IsSound} _ _ (Contract-request out _ (λ t s. s))
            (λ _. Contract-write _ (λ t s. delete-IsSound t id s))))
