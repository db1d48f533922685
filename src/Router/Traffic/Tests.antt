-- ===== src/Router/Traffic/Tests.antt =====
-- The theorem on the spacing of events, on a run of calls.
use mikrom.Prelude.{true, false, [], ◌∷◌}
use mikrom.Router.Traffic.{new_publisher, record_all}
use mikrom.Router.Traffic.Spacing.{Spaced, record_all-Spaced}

record_all-Spaced_example :
    Spaced
      (record_all
        ((true, "a", 100) ∷ (true, "a", 120) ∷ (false, "a", 140) ∷ (true, "a", 150) ∷ [])
        (new_publisher "r")).sent
record_all-Spaced_example =
    record_all-Spaced "r"
      ((true, "a", 100) ∷ (true, "a", 120) ∷ (false, "a", 140) ∷ (true, "a", 150) ∷ [])
