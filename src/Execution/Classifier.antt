-- ===== src/Execution/Classifier.antt =====
-- backend/internal/execution/classifier.go: `Classify`.
use Prim.Native.String.{String, len, ◌++◌}
use text.Mathlib.Text.{find?}
use ai_test_assistant.Prelude.{
  ℕ, ◌≡◌, ◌≢◌, ◌↔◌, Bool, true, false, not, ◌&&◌, ◌==◌, ◌=s◌, ltb, is_some, List, [], ◌∷◌, any_of,
  arith, if◌then◌else◌,
}

pub data RunStatus : Type 0 where
  passed timed_out infra_error automation_error product_failed : RunStatus

-- `strings.Contains`.
unfoldable pub contains : String → String → Bool
contains value candidate = is_some (find? value candidate)

unfoldable pub contains_any : String → List String → Bool
unfolding contains
contains_any value candidates = any_of (contains value) candidates

abbrev pub infra_signals : List String
infra_signals =
    "no space left on device" ∷ "cannot connect to the docker daemon" ∷ "temporary failure"
    ∷ "connection refused" ∷ "resource temporarily unavailable"
    ∷ "no required module provides package" ∷ "goproxy=off" ∷ []

abbrev pub build_signals : List String
build_signals =
    "build failed" ∷ "undefined:" ∷ "syntax error" ∷ "cannot use " ∷ "imported and not used"
    ∷ "expected declaration" ∷ "setup failed" ∷ []

abbrev pub assertion_signals : List String
assertion_signals = "--- fail:" ∷ "expected" ∷ "actual" ∷ "want " ∷ "got " ∷ []

-- `strings.ToLower` and `strings.TrimSpace`, and the last 2000 bytes of a longer text.
module _ (lower trim : String → String) (last_bytes : ℕ → String → String) where
  unfoldable pub summarize_output : String → String → String → String
  summarize_output stderr stdout fallback =
      let value = if trim stderr =s "" then trim stdout else trim stderr in
      if value =s ""
      then fallback
      else if ltb 2000 (len value)
      then last_bytes 2000 value
      else value

  -- The text that the signals are looked for in.
  unfoldable pub combined : String → String → String
  combined stderr stdout = lower (stderr ++ ("\n" ++ stdout))

  -- `Classify`; `exit_code` is 0 for success, and any other code is a number that is not 0.
  unfoldable pub classify : ℕ → Bool → String → String → String → Bool → RunStatus × String
  unfolding contains contains_any summarize_output combined
  classify exit_code was_timed_out stdout stderr artifact_path approved =
      let text = combined stderr stdout in
      let summary = summarize_output stderr stdout in
      if was_timed_out
      then (timed_out, "Sandbox execution exceeded its configured timeout.")
      else if exit_code == 0
      then (passed, "Automation completed and every assertion passed.")
      else if contains_any text infra_signals
      then (infra_error, summary "Execution environment or dependency setup failed.")
      else if contains_any text build_signals
      then (automation_error, summary "Generated automation did not compile or set up correctly.")
      else if contains text "panic:"
          && (not (artifact_path =s "") && contains text (lower artifact_path))
      then (
        automation_error,
        summary "Generated automation panicked inside its test implementation.",
      )
      else if approved && contains_any text assertion_signals
      then (product_failed, summary "Actual behavior did not satisfy the approved assertion.")
      else if not approved
      then (
        automation_error,
        summary "An unapproved automation artifact cannot establish a product failure.",
      )
      else (
        automation_error,
        summary "The test process failed without a reliable product-failure signal.",
      )

  -- What it takes to blame the product.
  abbrev pub BlamesProduct : ℕ → Bool → String → String → String → Bool → Type 0
  BlamesProduct exit_code was_timed_out stdout stderr artifact_path approved =
      let text = combined stderr stdout in
      (approved ≡ true)
      × (was_timed_out ≡ false)
      × (exit_code ≢ 0)
      × (contains_any text infra_signals ≡ false)
      × (contains_any text build_signals ≡ false)
      × (contains_any text assertion_signals ≡ true)
      × ((contains text "panic:"
            && (not (artifact_path =s "") && contains text (lower artifact_path)))
          ≡ false)

  -- `Classify` answers PRODUCT_FAILED exactly when the artifact is approved, the run neither timed out
  -- nor succeeded, its output has a sign of a failed assertion, and none of a failure of the
  -- environment, of the build, or of a panic in the artifact itself.
  pub product_failed_iff :
      (exit_code : ℕ) (was_timed_out : Bool) (stdout stderr artifact_path : String)
      (approved : Bool)
      → ((classify exit_code was_timed_out stdout stderr artifact_path approved).0 ≡ product_failed)
        ↔ BlamesProduct exit_code was_timed_out stdout stderr artifact_path approved
  unfolding classify
  product_failed_iff exit_code was_timed_out stdout stderr artifact_path approved = ground arith
