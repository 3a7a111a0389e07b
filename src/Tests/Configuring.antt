-- ===== src/Tests/Configuring.antt =====
-- The tiers of the router's tests, as a configuration.
use go_cascade.Base.{ok, false, ◌≡◌, refl, Sprintf}
use go_cascade.Float.{Milli, of_milli, milli_float}
use go_cascade.Cluster.{wilson_lcb, unanimous_score}
use go_cascade.Cascade.State.{Config}
use go_cascade.Config.{validate}
use go_cascade.Config.Accepted.{IsConsistent, validate-IsConsistent}
use go_cascade.Tests.Calibrating.{milli_math}
use go_cascade.Tests.Routing.{small_config}

abbrev plain_text : Sprintf Milli
plain_text f args = f

abbrev checked : Config Milli
checked = record small_config {
  alpha = of_milli 50;
  budget_usd = of_milli 0;
  cache_disabled = false;
  cache_admit_at = of_milli 100;
}

accepted_config : validate (λ x. x) plain_text checked ≡ ok tt
unfolding validate wilson_lcb unanimous_score
accepted_config = refl

validate-IsConsistent_example : IsConsistent (λ x. x) plain_text checked
validate-IsConsistent_example = validate-IsConsistent (λ x. x) plain_text checked accepted_config
