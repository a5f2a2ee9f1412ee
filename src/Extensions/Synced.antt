-- ===== src/Extensions/Synced.antt =====
-- The synchronisation with Asterisk: the tables stay as they are, whatever holds of them.
use comm_care.Prelude.{length, ◌+◌, if◌then◌else◌, ℕ, ◌≡◌, arith, List, [], ◌∷◌}
use comm_care.Entities.{Extension}
use comm_care.Office.{Tables, Outside, upsert_pjsip}
use comm_care.Office.Rules.{
  Contract-ask, Throwing, Contract, Contract-pure, Contract-query, Contract-bind, Contract-weaken,
}
use comm_care.Extensions.Service
use comm_care.Extensions.Service.{
  CreateExtensionInput, with_counter, read_counter, increment_counter, allocate, allocate_locked,
  get_next_extension_id, create_pool_extension, build_extension_entity, publish_creates,
  ensure_available_extension_pool, replenish_count,
}

-- Provisioning again sends requests only, whatever holds of the tables.
module _ {E : Throwing} {P : Tables → Type 0} (out : Outside) where
  sync_each-Contract :
      (es : List Extension) (synced errors : ℕ)
      → Contract E P
          (Service.sync_each out es synced errors)
          (λ counts t. P t × (counts.0 + counts.1 ≡ synced + errors + length es))
  unfolding Service.sync_each
  sync_each-Contract [] synced errors = Contract-pure (synced, errors) (λ t p. (p, omega arith))
  sync_each-Contract (e ∷ es) synced errors =
      Contract-bind {Q = λ _. P} _ _ (Contract-ask out (upsert_pjsip e)) (λ answered.
        Contract-weaken _ (λ t p. p) (λ counts t q. (q.0, ground (arith, q.1)))
          (sync_each-Contract es (if answered then synced + 1 else synced)
            (if answered then errors else errors + 1)))

  pub sync_all_to_asterisk-Contract : Contract E P (Service.sync_all_to_asterisk out) (λ _. P)
  unfolding Service.sync_all_to_asterisk
  sync_all_to_asterisk-Contract =
      Contract-bind {Q = λ _. P} _ _ (Contract-query _ (λ t p. p))
        (λ es. Contract-weaken _ (λ t p. p) (λ counts t q. q.0) (sync_each-Contract es 0 0))
