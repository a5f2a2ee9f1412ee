-- ===== src/Extensions/Counter.antt =====
-- The numbers of new extensions: the counter in Redis stays above all numbers, so a new number is new.
use comm_care.Prelude.{
  ℕ, ◌+◌, ◌≤◌, ◌<◌, ◌≡◌, refl, arith, Option, none, some, map, if◌then◌else◌, is_some, or_else, All,
  All-weaken,
}
use comm_care.Office.{Tables, Outside, Task, internal_server_error}
use comm_care.Office.Rows.{find_by_id}
use comm_care.Office.Rules.{
  Contract, Contract-pure, Contract-throw, Contract-query, Contract-write, Contract-bind,
  Contract-weaken, Contract-ask, Contract-request, Contract-if, Contract-catch_with,
  Contract-finally, Contract-password,
}
use comm_care.Extensions.{extension_id, save_extension}
use comm_care.Extensions.Service
use comm_care.Extensions.Service.{
  CreateExtensionInput, with_counter, read_counter, increment_counter, allocate, allocate_locked,
  get_next_extension_id, create_pool_extension, build_extension_entity, publish_creates,
  ensure_available_extension_pool, replenish_count,
}
use comm_care.Extensions.Keys.{key}
use comm_care.Extensions.Sound.{IsKeyed, IsSound, IsFresh, insert-IsSound, max_number-bounds}
use comm_care.Extensions.Kept.{sound, Keeps}

-- The counter of the extensions.
module _ (out : Outside) where
  -- A number above all others, which the counter holds.
  IsNext : ℕ → Tables → Type 0
  IsNext n t = IsSound t × All (λ k. k.1 < n) (map key t.extensions) × (t.top_extension_id ≡ some n)

  with_counter-IsNext :
      (t : Tables) (n : ℕ)
      → IsSound t
      → All (λ k. k.1 < n) (map key t.extensions)
      → IsNext n (with_counter t n)
  unfolding IsNext
  with_counter-IsNext t n s above =
      let counted : IsKeyed (some n) (map key t.extensions) = record {
        same_id = s.keyed.same_id;
        numbers = s.keyed.numbers;
        below = λ m e. All-weaken (λ k. k.1 < n) (λ k. k.1 ≤ m) _ (λ k h. ground arith) above;
      } in
      (record { tidy = s.tidy; keyed = counted }, above, refl)

  -- The counter is above all numbers; where it was read, it is there.
  IsCounted : Option ℕ → Tables → Type 0
  IsCounted found t = IsSound t × ((n : ℕ) → found ≡ some n → t.top_extension_id ≡ some n)

  read_counter-Contract : Contract sound IsSound (read_counter out) IsCounted
  unfolding read_counter IsCounted
  read_counter-Contract =
      Contract-bind {Q = λ _. IsSound} _ _ (Contract-ask out _)
        (λ answered. Contract-query _ (λ t s. (s, λ n e. ground arith)))

  increment_counter-Contract :
      (n : ℕ)
      → Contract sound
          (λ t. IsSound t × (t.top_extension_id ≡ some n))
          (increment_counter out)
          IsNext
  unfolding increment_counter
  increment_counter-Contract n = Contract-bind _ _ (Contract-request out _ (λ t p. p.0)) (λ _.
      Contract-bind {Q = λ next t. IsSound t × All (λ k. k.1 < next) (map key t.extensions)} _ _
        (Contract-query _ (λ t p. (
          p.0,
          All-weaken (λ k. k.1 ≤ n) (λ k. k.1 < or_else t.top_extension_id 0 + 1) _
              (λ k h. ground arith) (p.0.keyed.below n p.1),
        )))
        (λ next.
          Contract-bind {Q = λ _. IsNext next} _ _
            (Contract-write _ (λ t p. with_counter-IsNext t next p.0 p.1))
            (λ _. Contract-pure next (λ t p. p))))

  allocate-Contract : Contract sound IsSound (allocate out) IsNext
  unfolding allocate
  allocate-Contract =
      Contract-bind {Q = λ m t. IsSound t × All (λ k. k.1 ≤ m) (map key t.extensions)} _ _
        (Contract-query _ (λ t s. (s, max_number-bounds t.extensions)))
        (λ m.
          Contract-bind {Q = λ _ t. IsSound t × All (λ k. k.1 ≤ m) (map key t.extensions)} _ _
            (Contract-request out _ (λ t p. p.0))
            (λ _.
              Contract-bind {Q = λ _. IsNext (m + 1)} _ _
                (Contract-write _ (λ t p.
                  with_counter-IsNext t (m + 1) p.0
                    (All-weaken (λ k. k.1 ≤ m) (λ k. k.1 < m + 1) _ (λ k h. omega arith) p.1)))
                (λ _. Contract-pure (m + 1) (λ t p. p))))

  -- `INCRBY` after a read that found the counter, and otherwise another way to a number.
  after_read :
      (other : Task ℕ)
      → Contract sound IsSound other IsNext
      → (found : Option ℕ)
      → Contract sound
          (IsCounted found)
          (if is_some found then increment_counter out else other)
          IsNext
  unfolding IsCounted
  after_read other c none = Contract-weaken other (λ t p. p.0) (λ a t q. q) c
  after_read other c (some n) =
      Contract-weaken _ (λ t p. (p.0, p.1 n refl)) (λ a t q. q) (increment_counter-Contract n)

  allocate_locked-Contract : Contract sound IsSound (allocate_locked out) IsNext
  unfolding allocate_locked
  allocate_locked-Contract =
      Contract-bind {Q = IsCounted} _ _ read_counter-Contract (after_read _ allocate-Contract)

  get_next_extension_id-Contract : Contract sound IsSound (get_next_extension_id out) IsNext
  unfolding get_next_extension_id IsNext
  get_next_extension_id-Contract = Contract-bind {Q = IsCounted} _ _ read_counter-Contract (
      after_read _ (
        Contract-bind {Q = λ _. IsSound} _ _ (Contract-ask out _) (λ locked.
          Contract-if locked
            (λ _.
              Contract-finally _ _
                (Contract-catch_with internal_server_error _ allocate_locked-Contract)
                (λ n. Contract-request out _ (λ t p. p.0)) (λ x. Contract-request out _ (λ t s. s)))
            (λ _. Contract-throw internal_server_error (λ t s. s)))))

  pub create_pool_extension-Keeps :
      IsFresh out → (input : CreateExtensionInput) → Keeps (create_pool_extension out input)
  unfolding create_pool_extension build_extension_entity IsNext save_extension
  create_pool_extension-Keeps fresh input =
      Contract-bind {Q = IsNext} _ _ get_next_extension_id-Contract (λ number.
        Contract-bind
          {Q = λ id t. IsNext number t × (find_by_id extension_id id t.extensions ≡ none)} _ _
          (Contract-query _ (λ t p. (p, fresh t)))
          (λ id.
            Contract-bind
              {Q = λ _ t. IsNext number t × (find_by_id extension_id id t.extensions ≡ none)} _ _
              (Contract-password out)
              (λ password.
                let extension = build_extension_entity input number id password in
                Contract-bind {Q = λ _. IsSound} _ _
                  (Contract-write _
                    (λ t p. insert-IsSound t extension p.0.0 p.1 (refl, refl) p.0.1 p.0.2))
                  (λ _.
                    Contract-bind {Q = λ _. IsSound} _ _ (Contract-request out _ (λ t s. s))
                      (λ _. Contract-pure extension (λ t s. s))))))

pub handle_event_extension_create-Keeps :
    (out : Outside)
    → IsFresh out
    → (input : CreateExtensionInput) → Keeps (Service.handle_event_extension_create out input)
unfolding Service.handle_event_extension_create
handle_event_extension_create-Keeps out fresh input =
    Contract-bind {Q = λ _. IsSound} _ _ (create_pool_extension-Keeps out fresh input)
      (λ e. Contract-pure tt (λ t s. s))
