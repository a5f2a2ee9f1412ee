-- ===== src/Tests/Pool.antt =====
-- The theorems on extensions at a small office.
use comm_care.Extensions
use comm_care.Extensions.Service
use comm_care.Tenancy
use comm_care.Prelude.{
  lookup, Bool, false, ◌∙◌, ◌&&◌, or_else, holds_text, ◌+◌, ◌-◌, ◌<◌, ◌≤◌, String, ◌≡◌, refl, ap,
  arith, true, false, Bool-cases, Option-cases, inl, inr, ◌⊎◌, Option, none, some, List, [], ◌∷◌,
  ◌==◌, eq_iff, All, Memᴰ, length,
}
use Prim.Native.String.{count, ◌++◌}
use text.Mathlib.TextLemmas.{length-append}
use comm_care.Entities.{ExtensionStatus, Extension, available}
use comm_care.Office.{Office, Outside, office_after, query, write, request, ask, ◌>>=◌}
use comm_care.Office.Rows
use comm_care.Office.Rows.{find_by_id}
use comm_care.Extensions.{has_status, of_tenant, extension_id, is_free, chosen}
use comm_care.Extensions.Service.{CreateExtensionInput, ensure_available_extension_pool}
use comm_care.Extensions.Sound.{IsSound, IsFresh}
use comm_care.Extensions.Lowest.{chosen-lowest, lesser}
use comm_care.Extensions.Replenish.{handle_creates, published, maintenance-fills_pool}
use comm_care.Office.Rows.{pos}
use comm_care.Tenancy.Counting.{held}
use comm_care.Tenancy.Counted.{InStep}
use comm_care.Tenancy.Quotas.{IsNewTenant, all_answered, run-InStep}
use comm_care.Tenancy.Runs.{
  assign_to_user, operation, Command, extension_create, create_tenancy, bulk_assignment,
  create_user, unregister, run, run-IsSound,
}

-- Longer than every id of an extension or of its tenant.
fresh_id : List Extension → String
fresh_id [] = "n"
fresh_id (e ∷ es) = e.id ++ (or_else e.tenant_id "" ++ fresh_id es)

abbrev office_outside : Outside
office_outside = record {
  refuses = λ h r. false;
  new_id = λ t. fresh_id t.extensions;
  password = λ h. "secret";
}

fresh_id-length :
    (e : Extension) (es : List Extension)
    → count (fresh_id (e ∷ es))
      ≡ count e.id + (count (or_else e.tenant_id "") + count (fresh_id es))
unfolding fresh_id
fresh_id-length e es =
    length-append e.id (or_else e.tenant_id "" ++ fresh_id es)
    ∙ ap (λ k. count e.id + k) (length-append (or_else e.tenant_id "") (fresh_id es))

fresh_id-pos : (es : List Extension) → 0 < count (fresh_id es)
unfolding fresh_id
fresh_id-pos [] = omega arith
fresh_id-pos (e ∷ es) = omega (arith, fresh_id-length e es, fresh_id-pos es)

fresh_id-longer :
    (id : String) (es : List Extension) (e : Extension)
    → find_by_id extension_id id es ≡ some e
    → count id < count (fresh_id es)
unfolding find_by_id
fresh_id-longer id [] e found = cc
fresh_id-longer id (x ∷ es) e found = elim (Bool-cases (x.id == id)) [
  | inl same ↦
      let named : count x.id ≡ count id = ap count ((eq_iff x.id id).0 same) in
      omega (arith, fresh_id-length x es, fresh_id-pos es)
  | inr other ↦ omega (arith, fresh_id-length x es, fresh_id-longer id es e (rw other at found))
]

-- A tenant with a longer id holds nothing.
holds-nothing :
    (s : ExtensionStatus) (id : String) (es : List Extension)
    → count (fresh_id es) ≤ count id
    → Rows.count (held s id) es ≡ 0
holds-nothing s id [] h = refl
holds-nothing s id (e ∷ es) h =
    let rest = holds-nothing s id es (omega (arith, fresh_id-length e es)) in
    let no_tenant : of_tenant id e ≡ false =
      not_text e.tenant_id id (omega (arith, fresh_id-length e es, fresh_id-pos es)) in
    rw (and_no (has_status e.status s) no_tenant) (omega (arith, rest))
  where
    not_text :
        (o : Option String) (i : String) → count (or_else o "") < count i → holds_text o i ≡ false
    not_text none i l = refl
    not_text (some t) i l = elim (Bool-cases (t == i)) [
      | inl same ↦ absurd (omega (arith, ap count ((eq_iff t i).0 same)))
      | inr other ↦ other
    ]

    and_no : (a : Bool) {b : Bool} → b ≡ false → (a && b) ≡ false
    and_no true p = p
    and_no false p = refl

office_outside-IsFresh : IsFresh office_outside
office_outside-IsFresh t =
    elim (Option-cases (find_by_id extension_id (fresh_id t.extensions) t.extensions)) [
      | inl e ↦ e
      | inr found ↦
          absurd
            (omega (arith, fresh_id-longer (fresh_id t.extensions) t.extensions found.0 found.1))
    ]

abbrev empty_office : Office
empty_office = record {
  tables = record { extensions = []; tenants = []; users = []; top_extension_id = none };
  requests = [];
}

abbrev plain : CreateExtensionInput
plain = record { description = none; caller_id_name = none }

abbrev first_day : List Command
first_day =
    extension_create plain
    ∷ extension_create plain
    ∷ create_tenancy "Acme"
    ∷ bulk_assignment "acme" 1
    ∷ create_user (some "acme") "Bob" ("n" ∷ [])
    ∷ unregister "n" (some "acme")
    ∷ []

run-IsSound_example : IsSound (run office_outside first_day empty_office).tables
run-IsSound_example =
    run-IsSound office_outside first_day empty_office office_outside-IsFresh
      (record { tidy = tt; keyed = record { same_id = tt; numbers = tt; below = λ n e. tt } })

maintenance-fills_pool_example :
    (100
      ≤ Rows.count is_free
          (handle_creates office_outside plain
            (published
                (office_after
                  (ensure_available_extension_pool office_outside empty_office)).requests
              - published empty_office.requests)
            (office_after
              (ensure_available_extension_pool office_outside empty_office))).tables.extensions)
    × (published
          (office_after (ensure_available_extension_pool office_outside empty_office)).requests
        ≤ published empty_office.requests + 100)
maintenance-fills_pool_example =
    maintenance-fills_pool office_outside plain empty_office (λ h r. refl) office_outside-IsFresh

abbrev numbered : String → Option String → Extension
numbered id tenant = record {
  id = id;
  tenant_id = tenant;
  user_id = none;
  user_info = none;
  number = count id;
  description = none;
  status = available;
  pjsip_endpoint = id;
  pjsip_username = id;
  pjsip_password = id;
  caller_id_name = none;
  caller_id_number = none;
}

abbrev three : List Extension
three = numbered "xyz" none ∷ numbered "x" (some "acme") ∷ numbered "xy" none ∷ []

chosen-lowest_example :
    (length (chosen 1 three) ≡ lesser 1 (Rows.count is_free three))
    × All (λ e. is_free e ≡ true) (chosen 1 three)
    × ((p : Extension → Bool) → Rows.count p (chosen 1 three) ≤ Rows.count p three)
    × All
        (λ f.
          is_free f ≡ true
          → Memᴰ f (chosen 1 three) ⊎ All (λ e. e.number ≤ f.number) (chosen 1 three))
        three
chosen-lowest_example = chosen-lowest 1 three (omega arith)

two_is_lowest : chosen 1 three ≡ numbered "xy" none ∷ []
unfolding chosen
two_is_lowest = refl

office_outside-IsNewTenant : IsNewTenant office_outside
office_outside-IsNewTenant t s = holds-nothing s (fresh_id t.extensions) t.extensions (omega arith)

-- The free extension is reserved, refused to a user who is not there, and released.
abbrev tenancy_day : List Command
tenancy_day =
    bulk_assignment "acme" 1
    ∷ assign_to_user (some "acme") "bob" ("xyz" ∷ [])
    ∷ unregister "xyz" (some "acme")
    ∷ []

abbrev acme_office : Office
acme_office = record {
  tables = record {
    extensions = numbered "xyz" none ∷ [];
    tenants =
        record {
          id = "acme";
          name = "Acme";
          assigned_extension_count = pos 0;
          reserved_extension_count = pos 0;
        }
        ∷ [];
    users = [];
    top_extension_id = none;
  };
  requests = [];
}

tenancy_day-all_answered : all_answered office_outside tenancy_day acme_office ≡ true
unfolding all_answered operation Tenancy.handle_event_bulk_extension_assignment
    Tenancy.assign_one_by_one Service.assign_one_available_to_tenant
    Extensions.reserve_available_for_tenant query write Tenancy.on_extensions_reserved
    Tenancy.adjust_extension_stats ensure_available_extension_pool Extensions.count_available
    Rows.update_all Service.publish_creates request ask Tenancy.assign_extensions_to_user
    Tenancy.require_tenant Tenancy.unregister_extension Service.unregister_extension_from_tenant
    Tenancy.find_tenant_user Tenancy.find_user find_by_id Extensions.get_extension_for_tenant
    Extensions.save_extension Tenancy.on_extension_unregistered Service.replenish_count chosen
    Extensions.reserved_for ◌>>=◌ Rows.save Service.without_tenant
tenancy_day-all_answered = refl

run-InStep_example : InStep (run office_outside tenancy_day acme_office).tables
unfolding lookup
run-InStep_example =
    run-InStep office_outside tenancy_day acme_office office_outside-IsNewTenant
      (tt, (tt, (tt, tt))) tenancy_day-all_answered
      (
        record {
          tidy = ((refl, refl), tt);
          keyed = record { same_id = (refl, tt); numbers = (tt, tt); below = λ n e. cc };
        },
        ((refl, refl), tt),
      )
