-- ===== src/Tests/Voting.antt =====
-- Three candidates, of which two agree and one does not compile.
use go_cascade.Base.{sort_stable, String, ◌≡◌, refl, true, false, some, List, [], ◌∷◌}
use go_cascade.Float.{of_milli, Milli, milli_float}
use go_cascade.Verify.Stages.{Report, build, stage_name, no_report}
use go_cascade.Cluster.{
  Candidate, Cluster, behaviour, classes, cluster_lt, group, total_members, first_verified,
  wilson_lcb, score,
}
use mathlib.Core.List.{Perm, map}
use go_cascade.Cluster.Partition.{pool}
use go_cascade.Cluster.Mass.{score-group}

abbrev clean : Report
clean = record no_report { tests = ("TestV", true) ∷ [] }

abbrev refuted : Report
refuted = record no_report { ok_ = false; failed_at = build }

abbrev three : List Candidate
three =
    record { index = 0; source = "a"; report = some clean }
    ∷ record { index = 1; source = "b"; report = some refuted }
    ∷ record { index = 2; source = "c"; report = some clean }
    ∷ []

abbrev same_text : String → String
same_text s = s

abbrev majority : Cluster Milli
majority = record {
  key = "ok:ok:TestV=true;";
  members = 0 ∷ 2 ∷ [];
  mass = of_milli 666;
  verified = true;
  rep = 0;
}

abbrev least : Milli → Milli → Milli
least x y = x

abbrev bound : Milli
bound = (score (λ x. x) least least (group same_text three)).0

wins : score (λ x. x) least least (group same_text three) ≡ (bound, some majority)
unfolding score group classes behaviour cluster_lt sort_stable first_verified total_members
    wilson_lcb stage_name
wins = refl

score-group_example :
    Perm (pool {F = Milli} (group same_text three)) (map (λ d. d.index) three)
    × (total_members {F = Milli} (group same_text three) ≡ 3)
    × (majority.verified ≡ true)
    × (bound ≡ wilson_lcb (λ x. x) least least 2 3 (of_milli 1645))
score-group_example = score-group (λ x. x) least least same_text three bound majority wins
