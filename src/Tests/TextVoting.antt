-- ===== src/Tests/TextVoting.antt =====
-- Three candidates, two of which agree but for a blank line.
use go_cascade.Base.{trim_space, ◌≡◌, refl, none, some, List, [], ◌∷◌}
use go_cascade.Float.{of_milli, milli_float}
use go_cascade.Cluster.{Candidate}
use go_cascade.Cluster.Text.{Texts, text_key, put_vote, text_vote}
use go_cascade.Cluster.Text.Plurality.{IsPlurality, text_vote-IsPlurality}
use go_cascade.Verify.Output.{split_lines}

abbrev plain_texts : Texts
plain_texts = record { reprint = λ s. some s; digest = λ s. s; fields = λ s. s }

abbrev three : List Candidate
three =
    record { index = 2; source = "b"; report = none }
    ∷ record { index = 1; source = "a\n\nc"; report = none }
    ∷ record { index = 0; source = "a\nc"; report = none }
    ∷ []

elected_zero : text_vote plain_texts three ≡ some (0, of_milli 666)
unfolding text_vote put_vote text_key split_lines trim_space
elected_zero = refl

text_vote-IsPlurality_example : IsPlurality plain_texts three 0 (of_milli 666)
text_vote-IsPlurality_example =
    text_vote-IsPlurality plain_texts three 0 (of_milli 666) elected_zero
