-- ===== src/Tenancy/Quota.antt =====
-- The abstract view of a tenant: how many extensions it holds, reserved and assigned. The counters of a
-- tenant are in step with the table, before and after each change of both.
use comm_care.Prelude.{
  ℕ, ◌+◌, String, ◌≡◌, refl, sym, ap, ◌∙◌, subst, arith, false, Bool-cases, inl, inr, List, [], ◌∷◌,
  ◌==◌, eq_iff, All,
}
use comm_care.Entities.{Extension, ExtensionStatus, reserved, assigned}
use comm_care.Office.{Tenant}
use comm_care.Office.Rows.{ℤ, pos, raise, lower, count}
use comm_care.Tenancy.{
  change_tenant, count_reserved, count_assigned, count_unassigned, count_unregistered,
}
use comm_care.Tenancy.Counting.{held}

-- The counters of a tenant are the numbers of its reserved and of its assigned extensions.
abbrev pub Quota : List Extension → String → ℤ → ℤ → Type 0
Quota es id in_reserve in_use =
    (in_reserve ≡ pos (count (held reserved id) es)) × (in_use ≡ pos (count (held assigned id) es))

abbrev pub Counts : List Extension → Tenant → Type 0
Counts es t = Quota es t.id t.reserved_extension_count t.assigned_extension_count

-- How many extensions a change adds to what a tenant holds, and how many it takes away.
pub record Moves (id : String) (es es' : List Extension)
    (reserved_in reserved_out assigned_in assigned_out : ℕ) : Type 0 where
  pub of_reserved :
      count (held reserved id) es' + reserved_out ≡ count (held reserved id) es + reserved_in
  pub of_assigned :
      count (held assigned id) es' + assigned_out ≡ count (held assigned id) es + assigned_in
  pub of_others :
      (s : ExtensionStatus) (other : String)
      → other == id ≡ false
      → count (held s other) es' ≡ count (held s other) es

raise-pos : (a b n : ℕ) → a ≡ b + n → raise (pos b) n ≡ pos a
unfolding raise
raise-pos a b n e = ap pos (sym e)

lower-pos : (a b n : ℕ) → a + n ≡ b → lower (pos b) n ≡ pos a
unfolding lower
lower-pos a b n e = ground arith

-- The counters follow a change, for the tenant that is counted and for all others.
module _ (id : String) (es es' : List Extension) (f : Tenant → Tenant)
    (same_id : (t : Tenant) → (f t).id ≡ t.id)
    (counted : (t : Tenant) → t.id ≡ id → Counts es t → Counts es' (f t))
    (others : (s : ExtensionStatus) (other : String)
      → other == id ≡ false
      → count (held s other) es' ≡ count (held s other) es) where
  pub change_tenant-Counts :
      (ts : List Tenant) → All (Counts es) ts → All (Counts es') (change_tenant id f ts)
  unfolding change_tenant
  change_tenant-Counts [] h = tt
  change_tenant-Counts (t ∷ ts) h = elim (Bool-cases (t.id == id)) [
    | inl mine ↦ rw mine (counted t ((eq_iff t.id id).0 mine) h.0, change_tenant-Counts ts h.1)
    | inr other ↦ rw other (
      (
        h.0.0 ∙ ap pos (sym (others reserved t.id other)),
        h.0.1 ∙ ap pos (sym (others assigned t.id other)),
      ),
      change_tenant-Counts ts h.1,
    )
  ]

module _ (id : String) (es es' : List Extension) (n : ℕ) where
  pub count_reserved-Counts :
      (ts : List Tenant)
      → Moves id es es' n 0 0 0
      → All (Counts es) ts
      → All (Counts es') (change_tenant id (count_reserved n) ts)
  count_reserved-Counts ts m =
      change_tenant-Counts id es es' (count_reserved n) (λ t. refl)
        (λ t e h.
          subst
            (λ i.
              Quota es i t.reserved_extension_count t.assigned_extension_count
              → Quota es' i (raise t.reserved_extension_count n) (t.assigned_extension_count))
            (sym e)
            (λ c. (
              ap (λ z. raise z n) c.0 ∙ raise-pos _ _ n (omega (arith, m.of_reserved)),
              c.1 ∙ ap pos (omega (arith, m.of_assigned)),
            ))
            h)
        m.of_others ts

  pub count_assigned-Counts :
      (ts : List Tenant)
      → Moves id es es' 0 n n 0
      → All (Counts es) ts
      → All (Counts es') (change_tenant id (count_assigned n) ts)
  count_assigned-Counts ts m =
      change_tenant-Counts id es es' (count_assigned n) (λ t. refl)
        (λ t e h.
          subst
            (λ i.
              Quota es i t.reserved_extension_count t.assigned_extension_count
              → Quota es' i (lower t.reserved_extension_count n)
                  (raise t.assigned_extension_count n))
            (sym e)
            (λ c. (
              ap (λ z. lower z n) c.0 ∙ lower-pos _ _ n (omega (arith, m.of_reserved)),
              ap (λ z. raise z n) c.1 ∙ raise-pos _ _ n (omega (arith, m.of_assigned)),
            ))
            h)
        m.of_others ts

module _ (id : String) (es es' : List Extension) where
  pub count_unassigned-Counts :
      (ts : List Tenant)
      → Moves id es es' 1 0 0 1
      → All (Counts es) ts
      → All (Counts es') (change_tenant id count_unassigned ts)
  count_unassigned-Counts ts m =
      change_tenant-Counts id es es' count_unassigned (λ t. refl)
        (λ t e h.
          subst
            (λ i.
              Quota es i t.reserved_extension_count t.assigned_extension_count
              → Quota es' i (raise t.reserved_extension_count 1)
                  (lower t.assigned_extension_count 1))
            (sym e)
            (λ c. (
              ap (λ z. raise z 1) c.0 ∙ raise-pos _ _ 1 (omega (arith, m.of_reserved)),
              ap (λ z. lower z 1) c.1 ∙ lower-pos _ _ 1 (omega (arith, m.of_assigned)),
            ))
            h)
        m.of_others ts

  pub count_unregistered-Counts :
      (ts : List Tenant)
      → Moves id es es' 0 1 0 0
      → All (Counts es) ts
      → All (Counts es') (change_tenant id count_unregistered ts)
  count_unregistered-Counts ts m =
      change_tenant-Counts id es es' count_unregistered (λ t. refl)
        (λ t e h.
          subst
            (λ i.
              Quota es i t.reserved_extension_count t.assigned_extension_count
              → Quota es' i (lower t.reserved_extension_count 1) (t.assigned_extension_count))
            (sym e)
            (λ c. (
              ap (λ z. lower z 1) c.0 ∙ lower-pos _ _ 1 (omega (arith, m.of_reserved)),
              c.1 ∙ ap pos (omega (arith, m.of_assigned)),
            ))
            h)
        m.of_others ts
