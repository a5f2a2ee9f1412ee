-- ===== src/Extensions/Replenish.antt =====
-- The pool is filled up: the creations that are asked for bring the free extensions to the threshold.
use comm_care.Prelude.{
  ℕ, zero, suc, ◌+◌, ◌≤◌, ◌-◌, String, ◌≡◌, refl, ap, ◌∙◌, arith, Bool, true, false, Bool-cases,
  inl, inr, Option, none, some, List, [], ◌∷◌, ◌++◌, if◌then◌else◌, leb, is_some,
}
use comm_care.Entities.{Extension}
use comm_care.Office.{
  Tables, Request, Entry, did, failed, Outside, Office, Exception, Outcome, done, thrown, pure,
  skip, throw, ◌>>=◌, query, ask, request, with_request, internal_server_error,
  publish_extension_create, office_after, continue,
}
use comm_care.Office.Rows.{find_by_id, count}
use comm_care.Office.Rules.{
  Throwing, Contract, Post, Contract-pure, Contract-query, Contract-write, Contract-bind,
  Contract-weaken, Contract-if, Contract-given, Contract-catch_with, Contract-finally,
  Contract-password, Contract-throw,
}
use comm_care.Extensions.{extension_id, is_free, count_available, save_extension}
use comm_care.Extensions.Service.{
  CreateExtensionInput, read_counter, increment_counter, allocate, allocate_locked,
  get_next_extension_id, build_extension_entity, create_pool_extension,
  handle_event_extension_create, publish_creates, replenish_count, ensure_available_extension_pool,
}
use comm_care.Extensions.Keys.{save-new}
use comm_care.Extensions.Sound.{IsFresh}

-- No request is refused.
abbrev pub IsReliable : Outside → Type 0
IsReliable out = (h : List Entry) (r : Request) → out.refuses h r ≡ false

abbrev free_in : Tables → ℕ
free_in t = count is_free t.extensions

abbrev never : Throwing
never x t = ⊥

module _ (out : Outside) (reliable : IsReliable out) {P : Tables → Type 0} where
  ask-answered : (r : Request) → Contract never P (ask out r) (λ b t. P t × (b ≡ true))
  unfolding ask
  ask-answered r = record {
    at = λ o p. by_answer (out.refuses o.requests r) o (reliable o.requests r) p;
  }
    where
      by_answer :
          (b : Bool) (o : Office)
          → b ≡ false
          → P o.tables
          → Post never
              (λ c t. P t × (c ≡ true))
              (if b
                then done false (with_request o (failed r))
                else done true (with_request o (did r)))
      by_answer true o e p = cc
      by_answer false o e p = (p, refl)

  request-answered : (r : Request) → Contract never P (request out r) (λ _. P)
  unfolding request
  request-answered r = Contract-bind _ _ (ask-answered r) (λ b. answered b)
    where
      answered :
          (b : Bool)
          → Contract never
              (λ t. P t × (b ≡ true))
              (if b then skip else throw Exception.refused)
              (λ _. P)
      answered true = Contract-pure tt (λ t p. p.0)
      answered false = Contract-throw _ (λ t p. cc)

module _ (out : Outside) (reliable : IsReliable out) (k : ℕ) where
  abbrev Free : Tables → Type 0
  Free t = free_in t ≡ k

  read_counter-Free : Contract never Free (read_counter out) (λ _. Free)
  unfolding read_counter
  read_counter-Free =
      Contract-bind _ _ (ask-answered out reliable _) (λ b. Contract-query _ (λ t p. p.0))

  increment_counter-Free : Contract never Free (increment_counter out) (λ _. Free)
  unfolding increment_counter
  increment_counter-Free = Contract-bind {Q = λ _. Free} _ _ (request-answered out reliable _) (λ _.
      Contract-bind {Q = λ _. Free} _ _ (Contract-query _ (λ t p. p)) (λ next.
        Contract-bind {Q = λ _. Free} _ _ (Contract-write _ (λ t p. p))
          (λ _. Contract-pure next (λ t p. p))))

  allocate-Free : Contract never Free (allocate out) (λ _. Free)
  unfolding allocate
  allocate-Free = Contract-bind {Q = λ _. Free} _ _ (Contract-query _ (λ t p. p)) (λ m.
      Contract-bind {Q = λ _. Free} _ _ (request-answered out reliable _) (λ _.
        Contract-bind {Q = λ _. Free} _ _ (Contract-write _ (λ t p. p))
          (λ _. Contract-pure (m + 1) (λ t p. p))))

  allocate_locked-Free : Contract never Free (allocate_locked out) (λ _. Free)
  unfolding allocate_locked
  allocate_locked-Free =
      Contract-bind {Q = λ _. Free} _ _ read_counter-Free
        (λ found. Contract-if (is_some found) (λ e. increment_counter-Free) (λ e. allocate-Free))

  get_next_extension_id-Free : Contract never Free (get_next_extension_id out) (λ _. Free)
  unfolding get_next_extension_id
  get_next_extension_id-Free = Contract-bind {Q = λ _. Free} _ _ read_counter-Free (λ found.
      Contract-if (is_some found) (λ e. increment_counter-Free)
        (λ e. Contract-bind _ _ (ask-answered out reliable _) (λ locked.
          Contract-given (locked ≡ true) (λ t p. p.1)
            (λ yes_.
              Contract-if locked
                (λ e'.
                  Contract-weaken _ (λ t p. p.0) (λ a t p. p)
                    (Contract-finally _ _
                      (Contract-catch_with internal_server_error _ allocate_locked-Free)
                      (λ n. request-answered out reliable _)
                      (λ x. request-answered out reliable _)))
                (λ no_. absurd (true-false yes_ no_))))))
    where
      true-false : {b : Bool} → b ≡ true → b ≡ false → ⊥
      true-false p q = cc

count-append_one :
    (p : Extension → Bool) (es : List Extension) (e : Extension)
    → count p (es ++ e ∷ []) ≡ count p es + (if p e then 1 else 0)
count-append_one p [] e = omega arith
count-append_one p (x ∷ es) e = omega (arith, count-append_one p es e)

module _ (out : Outside) (reliable : IsReliable out) (fresh : IsFresh out) (k : ℕ) where
  create_pool_extension-Free :
      (input : CreateExtensionInput)
      → Contract never
          (λ t. free_in t ≡ k)
          (create_pool_extension out input)
          (λ _ t. free_in t ≡ k + 1)
  unfolding create_pool_extension build_extension_entity save_extension
  create_pool_extension-Free input =
      Contract-bind {Q = λ _ t. free_in t ≡ k} _ _ (get_next_extension_id-Free out reliable k)
        (λ number.
          Contract-bind
            {Q = λ id t. (free_in t ≡ k) × (find_by_id extension_id id t.extensions ≡ none)} _ _
            (Contract-query _ (λ t p. (p, fresh t)))
            (λ id.
              Contract-bind
                {Q = λ _ t. (free_in t ≡ k) × (find_by_id extension_id id t.extensions ≡ none)} _ _
                (Contract-password out)
                (λ password.
                  let extension = build_extension_entity input number id password in
                  Contract-bind {Q = λ _ t. free_in t ≡ k + 1} _ _
                    (Contract-write _ (λ t p.
                      rw (save-new extension t.extensions p.1)
                        (count-append_one is_free t.extensions extension ∙ ap (λ n. n + 1) p.0)))
                    (λ _.
                      Contract-bind {Q = λ _ t. free_in t ≡ k + 1} _ _
                        (request-answered out reliable _)
                        (λ _. Contract-pure extension (λ t p. p))))))

-- The events of the queue are handled one after another.
unfoldable pub handle_creates : Outside → CreateExtensionInput → ℕ → Office → Office
handle_creates out input zero o = o
handle_creates out input (suc n) o =
    handle_creates out input n (office_after (handle_event_extension_create out input o))

-- How many creations were published.
unfoldable pub published : List Entry → ℕ
published [] = 0
published (did (publish_extension_create batch_id index) ∷ es) = published es + 1
published (e ∷ es) = published es

Post-never :
    {A : Type 0} (n : ℕ) (r : Outcome A)
    → Post never (λ _ t. free_in t ≡ n) r
    → free_in (office_after r).tables ≡ n
Post-never n (done a o) h = h
Post-never n (thrown x o) h = absurd h

office_after-continue :
    {A B : Type 0} (r : Outcome A) (b : B)
    → office_after (continue r (λ a. pure b)) ≡ office_after r
office_after-continue (done a o) b = refl
office_after-continue (thrown x o) b = refl

module _ (out : Outside) (reliable : IsReliable out) where
  handle_creates-free_in :
      (fresh : IsFresh out) (input : CreateExtensionInput) (n k : ℕ) (o : Office)
      → free_in o.tables ≡ k
      → free_in (handle_creates out input n o).tables ≡ k + n
  unfolding handle_creates handle_event_extension_create
  handle_creates-free_in fresh input zero k o e = omega (arith, e)
  handle_creates-free_in fresh input (suc n) k o e =
      let created =
        Contract-bind {R = λ _ t. free_in t ≡ k + 1} _ _
          (create_pool_extension-Free out reliable fresh k input)
          (λ x. Contract-pure tt (λ t p. p)) in
      let one = Post-never (k + 1) _ (created.at o e) in
      handle_creates-free_in fresh input n (k + 1) _ one ∙ omega arith

  publish_creates-published :
      (batch_id : String) (index n : ℕ) (o : Office)
      → (published (office_after (publish_creates out batch_id index n o)).requests
          ≡ published o.requests + n)
        × ((office_after (publish_creates out batch_id index n o)).tables ≡ o.tables)
  unfolding publish_creates published request ask ◌>>=◌
  publish_creates-published batch_id index zero o = (omega arith, refl)
  publish_creates-published batch_id index (suc n) o =
      rw (reliable o.requests (publish_extension_create batch_id index)) (
        let rest =
          publish_creates-published batch_id (index + 1) n
            (with_request o (did (publish_extension_create batch_id index))) in
        (omega (arith, rest.0), rest.1))

  Publishes : ℕ → Office → Office → Type 0
  Publishes n o o' = (published o'.requests ≡ published o.requests + n) × (o'.tables ≡ o.tables)

  nothing-published : (o : Office) → Publishes 0 o o
  unfolding Publishes
  nothing-published o = (omega arith, refl)

  batch-published :
      (batch_id : String) (n : ℕ) (o : Office)
      → Publishes n o (
          office_after {A = Option (String × ℕ)}
            (continue (publish_creates out batch_id 0 n o) (λ u. pure (some (batch_id, n)))))
  unfolding Publishes
  batch-published batch_id n o =
      rw
        (office_after-continue {B = Option (String × ℕ)} (publish_creates out batch_id 0 n o)
          (some (batch_id, n)))
        (publish_creates-published batch_id 0 n o)

  ensure-published :
      (o : Office)
      → Publishes
          (replenish_count (free_in o.tables))
          o
          (office_after (ensure_available_extension_pool out o))
  unfolding ensure_available_extension_pool replenish_count count_available query ◌>>=◌
  ensure-published o = elim (Bool-cases (leb 100 (free_in o.tables))) [
    | inl many ↦ rw many (nothing-published o)
    | inr few ↦ rw few (batch-published _ _ o)
  ]

replenish_count-bounds :
    (free : ℕ) → (100 ≤ free + replenish_count free) × (replenish_count free ≤ 100)
unfolding replenish_count
replenish_count-bounds free = ground arith

-- If no request is refused and the database makes new ids, then the creations that the maintenance of the
-- pool publishes, once they are handled, bring the free extensions to the threshold of 100; and it
-- publishes 100 at most.
pub maintenance-fills_pool :
    (out : Outside) (input : CreateExtensionInput) (o : Office)
    → IsReliable out
    → IsFresh out
    → (100
        ≤ count is_free
            (handle_creates out input
              (published (office_after (ensure_available_extension_pool out o)).requests
                - published o.requests)
              (office_after (ensure_available_extension_pool out o))).tables.extensions)
      × (published (office_after (ensure_available_extension_pool out o)).requests
          ≤ published o.requests + 100)
unfolding Publishes
maintenance-fills_pool out input o reliable fresh =
    let after = ensure-published out reliable o in
    let bounds = replenish_count-bounds (free_in o.tables) in
    let filled =
      handle_creates-free_in out reliable fresh input
        (published (office_after (ensure_available_extension_pool out o)).requests
          - published o.requests)
        (free_in o.tables) (office_after (ensure_available_extension_pool out o))
        (ap free_in after.1) in
    (omega (arith, filled, after.0, bounds.0), omega (arith, after.0, bounds.1))
