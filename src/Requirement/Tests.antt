-- ===== src/Requirement/Tests.antt =====
-- The comparison of two small snapshots.
use ai_test_assistant.Prelude.{◌≡◌, List, [], ◌∷◌, count}
use ai_test_assistant.Requirement.Comparison.{Requirement, compare_requirements}
use ai_test_assistant.Requirement.Conservation.{ids_of, befores, afters, comparison_keeps_before}
use ai_test_assistant.Requirement.Later.{comparison_keeps_after}

-- One requirement is kept, one changes, one goes and one comes.
abbrev snapshot_before : List Requirement
snapshot_before =
    record { id = 1; identity = "A"; content = "login" }
    ∷ record { id = 2; identity = "B"; content = "logout" }
    ∷ record { id = 3; identity = "C"; content = "search" }
    ∷ []

abbrev snapshot_after : List Requirement
snapshot_after =
    record { id = 4; identity = "B"; content = "log out" }
    ∷ record { id = 5; identity = "A"; content = "login" }
    ∷ record { id = 6; identity = "D"; content = "export" }
    ∷ []

comparison_keeps_before_example :
    count 2 (befores (compare_requirements snapshot_before snapshot_after))
    ≡ count 2 (ids_of snapshot_before)
comparison_keeps_before_example = comparison_keeps_before snapshot_before snapshot_after 2

comparison_keeps_after_example :
    count 5 (afters (compare_requirements snapshot_before snapshot_after))
    ≡ count 5 (ids_of snapshot_after)
comparison_keeps_after_example = comparison_keeps_after snapshot_before snapshot_after 5
