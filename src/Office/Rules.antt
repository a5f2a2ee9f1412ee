-- ===== src/Office/Rules.antt =====
-- What an operation ensures of the tables, however it ends: one rule for each way to build an operation.
use comm_care.Prelude.{
  ◌≡◌, refl, Bool, true, false, Option, none, some, List, [], ◌∷◌, if◌then◌else◌,
}
use comm_care.Office.{
  Tables, Request, did, failed, Outside, Office, Exception, refused, Outcome, done, thrown, Task,
  pure, throw, continue, ◌>>=◌, query, write, or_throw, throw_if, for_each, ask, request,
  with_request, skip, catch_with, finally, new_password,
}

-- What holds of the tables when an exception is thrown.
abbrev pub Throwing : Type 1
Throwing = Exception → Tables → Type 0

abbrev pub Post : {A : Type 0} → Throwing → (A → Tables → Type 0) → Outcome A → Type 0
Post E Q (done a o) = Q a o.tables
Post E Q (thrown x o) = E x o.tables

pub record Contract {A : Type 0} (E : Throwing) (P : Tables → Type 0) (m : Task A)
    (Q : A → Tables → Type 0) : Type 0 where
  pub at : (o : Office) → P o.tables → Post E Q (m o)

module _ {A : Type 0} {E : Throwing} {P : Tables → Type 0} where
  pub Contract-pure :
      {Q : A → Tables → Type 0} (a : A) → ((t : Tables) → P t → Q a t) → Contract E P (pure a) Q
  Contract-pure a f = record { at = λ o p. f o.tables p }

  pub Contract-throw :
      {Q : A → Tables → Type 0} (x : Exception)
      → ((t : Tables) → P t → E x t)
      → Contract E P (throw x) Q
  Contract-throw x f = record { at = λ o p. f o.tables p }

  -- A query leaves the equation that it is answered from the tables.
  pub Contract-query :
      {Q : A → Tables → Type 0} (f : Tables → A)
      → ((t : Tables) → P t → Q (f t) t)
      → Contract E P (query f) Q
  unfolding query
  Contract-query f q = record { at = λ o p. q o.tables p }

  pub Contract-or_throw :
      {Q : A → Tables → Type 0} (x : Exception) (v : Option A)
      → ((t : Tables) → P t → v ≡ none → E x t)
      → ((a : A) (t : Tables) → P t → v ≡ some a → Q a t)
      → Contract E P (or_throw x v) Q
  Contract-or_throw x none bad good = record { at = λ o p. bad o.tables p refl }
  Contract-or_throw x (some a) bad good = record { at = λ o p. good a o.tables p refl }

module _ {E : Throwing} {P Q : Tables → Type 0} where
  pub Contract-write :
      (f : Tables → Tables) → ((t : Tables) → P t → Q (f t)) → Contract E P (write f) (λ _. Q)
  unfolding write
  Contract-write f q = record { at = λ o p. q o.tables p }

  pub Contract-throw_if :
      (b : Bool) (x : Exception)
      → ((t : Tables) → P t → b ≡ true → E x t)
      → ((t : Tables) → P t → b ≡ false → Q t)
      → Contract E P (throw_if b x) (λ _. Q)
  Contract-throw_if true x bad good = record { at = λ o p. bad o.tables p refl }
  Contract-throw_if false x bad good = record { at = λ o p. good o.tables p refl }

module _ {A B : Type 0} {E : Throwing} {Q : A → Tables → Type 0} {R : B → Tables → Type 0} where
  Post-continue :
      (r : Outcome A) (f : A → Task B)
      → Post E Q r
      → ((a : A) → Contract E (Q a) (f a) R)
      → Post E R (continue r f)
  Post-continue (done a o) f h k = (k a).at o h
  Post-continue (thrown x o) f h k = h

  pub Contract-bind :
      {P : Tables → Type 0} (m : Task A) (f : A → Task B)
      → Contract E P m Q
      → ((a : A) → Contract E (Q a) (f a) R)
      → Contract E P (m >>= f) R
  unfolding ◌>>=◌
  Contract-bind m f c k = record { at = λ o p. Post-continue (m o) f (c.at o p) k }

module _ {A : Type 0} {Q Q' : A → Tables → Type 0} where
  Post-weaken :
      (E : Throwing) (r : Outcome A)
      → ((a : A) (t : Tables) → Q' a t → Q a t)
      → Post E Q' r
      → Post E Q r
  Post-weaken E (done a o) q h = q a o.tables h
  Post-weaken E (thrown x o) q h = h

  pub Contract-weaken :
      {E : Throwing} {P P' : Tables → Type 0} (m : Task A)
      → ((t : Tables) → P t → P' t)
      → ((a : A) (t : Tables) → Q' a t → Q a t)
      → Contract E P' m Q'
      → Contract E P m Q
  Contract-weaken {E} m p q c = record { at = λ o x. Post-weaken E (m o) q (c.at o (p o.tables x)) }

module _ {E : Throwing} {P : Tables → Type 0} where
  pub Contract-ask : (out : Outside) (r : Request) → Contract E P (ask out r) (λ _. P)
  unfolding ask
  Contract-ask out r = record { at = λ o p. by_answer (out.refuses o.requests r) o p }
    where
      by_answer :
          (b : Bool) (o : Office)
          → P o.tables
          → Post E
              (λ _. P)
              (if b
                then done false (with_request o (failed r))
                else done true (with_request o (did r)))
      by_answer true o p = p
      by_answer false o p = p

  pub Contract-request :
      (out : Outside) (r : Request)
      → ((t : Tables) → P t → E refused t)
      → Contract E P (request out r) (λ _. P)
  unfolding request
  Contract-request out r bad = Contract-bind _ _ (Contract-ask out r) (λ b. by_answer b)
    where
      by_answer : (b : Bool) → Contract E P (if b then skip else throw refused) (λ _. P)
      by_answer true = Contract-pure tt (λ t p. p)
      by_answer false = Contract-throw refused bad

  pub Contract-password : (out : Outside) → Contract E P (new_password out) (λ _. P)
  unfolding new_password
  Contract-password out = record { at = λ o p. p }

  pub Contract-for_each :
      {A : Type 0} (f : A → Task (Unit {0})) (xs : List A)
      → ((a : A) → Contract E P (f a) (λ _. P))
      → Contract E P (for_each f xs) (λ _. P)
  unfolding for_each
  Contract-for_each f [] step = Contract-pure tt (λ t p. p)
  Contract-for_each f (x ∷ xs) step =
      Contract-bind (f x) (λ _. for_each f xs) (step x) (λ _. Contract-for_each f xs step)

module _ {A : Type 0} {E : Throwing} {P : Tables → Type 0} {Q : A → Tables → Type 0} where
  -- A fact that follows from the precondition can be used.
  pub Contract-given :
      {m : Task A} (F : Type 0)
      → ((t : Tables) → P t → F)
      → (F → Contract E P m Q)
      → Contract E P m Q
  Contract-given F fact c = record { at = λ o p. (c (fact o.tables p)).at o p }

  pub Contract-if :
      (b : Bool) {m n : Task A}
      → (b ≡ true → Contract E P m Q)
      → (b ≡ false → Contract E P n Q)
      → Contract E P (if b then m else n) Q
  Contract-if true c d = c refl
  Contract-if false c d = d refl

  pub Contract-catch_with :
      (x : Exception) (m : Task A) → Contract (λ _. E x) P m Q → Contract E P (catch_with x m) Q
  unfolding catch_with
  Contract-catch_with x m c = record { at = λ o p. by_outcome (m o) (c.at o p) }
    where
      by_outcome :
          (r : Outcome A)
          → Post (λ _. E x) Q r
          → Post E Q (elim r [ done a o' ↦ done a o' | thrown y o' ↦ thrown x o' ])
      by_outcome (done a o) h = h
      by_outcome (thrown y o) h = h

  -- The last step leaves what it finds.
  pub Contract-finally :
      (m : Task A) (f : Task (Unit {0}))
      → Contract E P m Q
      → ((a : A) → Contract E (Q a) f (λ _. Q a))
      → ((x : Exception) → Contract E (E x) f (λ _. E x))
      → Contract E P (finally m f) Q
  unfolding finally
  Contract-finally m f c good bad = record { at = λ o p. by_outcome (m o) (c.at o p) }
    where
      after_done :
          (a : A) (r : Outcome (Unit {0}))
          → Post E (λ _. Q a) r
          → Post E Q (elim r [ done u o ↦ done a o | thrown x o ↦ thrown x o ])
      after_done a (done u o) h = h
      after_done a (thrown x o) h = h

      after_thrown :
          (y : Exception) (r : Outcome (Unit {0}))
          → Post E (λ _. E y) r
          → Post E Q (elim r [ done u o ↦ thrown y o | thrown x o ↦ thrown x o ])
      after_thrown y (done u o) h = h
      after_thrown y (thrown x o) h = h

      by_outcome :
          (r : Outcome A)
          → Post E Q r
          → Post E Q (elim r [
            | done a o' ↦ elim (f o') [ done u o'' ↦ done a o'' | thrown x o'' ↦ thrown x o'' ]
            | thrown y o' ↦ elim (f o') [ done u o'' ↦ thrown y o'' | thrown x o'' ↦ thrown x o'' ]
          ])
      by_outcome (done a o) h = after_done a (f o) ((good a).at o h)
      by_outcome (thrown y o) h = after_thrown y (f o) ((bad y).at o h)
