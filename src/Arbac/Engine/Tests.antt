-- ===== src/Arbac/Engine/Tests.antt =====
-- Runs of the engine of packages/arbac-core/src/arbac.ts on small policies, and the theorems at
-- those runs.
use aoothjs.Base.{units, ℕ, ◌≤◌, ◌≡◌, refl, ◌↔◌, String, true, false, none, some, List, [], ◌∷◌}
use aoothjs.Base.Assoc.{get, put}
use aoothjs.Arbac.Pattern.{arbac_pattern_to_regex, test}
use aoothjs.Arbac.Pattern.Accepts.{Accepts, test_iff}
use aoothjs.Arbac.Engine.{
  Role, deny, effect_of, covers, compile, eval_role_for_resource, register_role, register_resource,
}
use aoothjs.Arbac.Engine.Evaluate.{
  denied, Request, known, Attenuation, User, match_of, match_all, held_roles, decide,
  evaluate_for_roles, cred_roles, evaluate,
}
use aoothjs.Arbac.Engine.Direct.{acts_on, rule_applies, role_denies, evaluate_directly}
use aoothjs.Arbac.Engine.Refines.{Call, role, resource, run, evaluate-run}
use aoothjs.Arbac.Engine.Attenuation.{evaluate-denied}

engine : Unit {0}
unfolding register_role register_resource evaluate run get put units arbac_pattern_to_regex test
    role_denies evaluate_for_roles eval_role_for_resource held_roles decide match_all match_of
    compile cred_roles effect_of rule_applies covers acts_on
engine = tt

abbrev reader : Role ℕ String
reader = record {
  id = "reader";
  rules =
      record {
        resource = "docs.*";
        action = "read";
        effect = none;
        scope = some (λ attrs id. some id);
      }
      ∷ [];
}

abbrev banned : Role ℕ String
banned = record {
  id = "banned";
  rules = record { resource = "**"; action = "*"; effect = some deny; scope = none } ∷ [];
}

abbrev policy : List (Call ℕ String)
policy = role reader ∷ resource "docs.a" ∷ role banned ∷ []

abbrev read : Request
read = record { resource = "docs.a"; action = "read" }

abbrev ann : User ℕ
ann = record { id = some "ann"; roles = "reader" ∷ []; attrs = known []; attenuate = none }

abbrev narrow_claims : Attenuation ℕ
narrow_claims = record {
  roles = some ("reader" ∷ "admin" ∷ []);
  attrs = none;
  allow_unheld_roles = false;
}

abbrev ann_token : User ℕ
ann_token = record ann { attenuate = some narrow_claims }

pattern_tests :
    (test (arbac_pattern_to_regex (units "docs.*")) (units "docs.a.b") ≡ false)
    × (test (arbac_pattern_to_regex (units "docs.**")) (units "docs.a.b") ≡ true)
    × (test (arbac_pattern_to_regex (units "a+b")) (units "aab") ≡ false)
unfolding engine
pattern_tests = (refl, refl, refl)

test_iff_example :
    (test (arbac_pattern_to_regex (97 ∷ 42 ∷ [])) (97 ∷ 98 ∷ []) ≡ true)
    ↔ Accepts (97 ∷ 42 ∷ []) (97 ∷ 98 ∷ [])
test_iff_example = test_iff (97 ∷ 42 ∷ []) (97 ∷ 98 ∷ [])

evaluate-run_example :
    ((evaluate "all" read ann_token (run "all" policy)).0
      ≡ evaluate_directly "all" read ann_token (run "all" policy).roles)
    × ((evaluate "all" read ann_token (run "all" policy)).1.calls ≤ 1)
    × ((evaluate "all" read ann_token (run "all" policy)).2.roles ≡ (run "all" policy).roles)
evaluate-run_example = evaluate-run "all" policy read ann_token

abbrev both : User ℕ
both = record ann { roles = "reader" ∷ "banned" ∷ [] }

evaluate-denied_example : (evaluate "all" read both (run "all" policy)).0 ≡ denied
unfolding engine
evaluate-denied_example =
    evaluate-denied "all" policy read both "banned" {role = banned} refl refl refl
