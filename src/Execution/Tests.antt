-- ===== src/Execution/Tests.antt =====
-- A classified run.
use Prim.Native.String.{String}
use ai_test_assistant.Prelude.{ℕ, ◌≡◌, ◌↔◌, true, false}
use ai_test_assistant.Execution.Classifier.{
  classify, product_failed, BlamesProduct, product_failed_iff,
}

abbrev same_text : String → String
same_text s = s

abbrev whole_text : ℕ → String → String
whole_text _ s = s

product_failed_iff_example :
    ((classify same_text same_text whole_text 1 false "want 3" "" "a.go" true).0 ≡ product_failed)
    ↔ BlamesProduct same_text same_text whole_text 1 false "want 3" "" "a.go" true
product_failed_iff_example =
    product_failed_iff same_text same_text whole_text 1 false "want 3" "" "a.go" true
