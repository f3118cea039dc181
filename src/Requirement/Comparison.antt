-- ===== src/Requirement/Comparison.antt =====
-- backend/internal/requirement/source_comparison.go: `compareRequirements`.
use Prim.Native.String.{String}
use Prim.Native.String.{compare as compare_text}
use text.Mathlib.Text.{find?, is_lt}
use ai_test_assistant.Prelude.{
  ℕ, Bool, true, false, not, ◌&&◌, ◌==◌, ◌=s◌, is_some, List, [], ◌∷◌, ◌++◌, map, keep_if, any_of,
  count_p, if◌then◌else◌,
}

-- `comparisonRequirement`.
pub record Requirement : Type 0 where
  pub id : ℕ
  pub identity : String
  pub content : String

pub data Classification : Type 0 where
  unchanged changed added removed ambiguous : Classification

-- `SourceChange`.
pub record SourceChange : Type 0 where
  pub classification : Classification
  pub before_ids : List ℕ
  pub after_ids : List ℕ
  pub reason : String
  pub affected_test_case_ids : List ℕ

-- `groups[key][0]` or `groups[key][1]`: the rows of an identity, in order.
unfoldable pub group : String → List Requirement → List Requirement
group key rows = keep_if (λ r. r.identity =s key) rows

unfoldable pub insert_key : String → List String → List String
insert_key k [] = k ∷ []
insert_key k (x ∷ xs) =
    let rest = insert_key k xs in if is_lt (compare_text k x) then k ∷ x ∷ xs else x ∷ rest

-- The keys of the map, each once, as `sort.Strings` leaves them.
unfoldable pub add_key : String → List String → List String
unfolding insert_key
add_key k keys = if any_of (λ x. k =s x) keys then keys else insert_key k keys

unfoldable pub keys_of : List Requirement → List String
unfolding add_key
keys_of [] = []
keys_of (r ∷ rs) = add_key r.identity (keys_of rs)

-- The closure `add`.
unfoldable pub change : Classification → String → List Requirement → List Requirement → SourceChange
change kind reason old new = record {
  classification = kind;
  before_ids = map (λ r. r.id) old;
  after_ids = map (λ r. r.id) new;
  reason = reason;
  affected_test_case_ids = [];
}

unfoldable pub has_content : String → Requirement → Bool
has_content content r = r.content =s content

-- `oldCount == 1 && len(matches) == 1`. The two rows of a pair are the only ones of their content, so
-- that `usedOld` and `usedNew` hold just the rows of the paired contents.
unfoldable pub is_paired : List Requirement → List Requirement → Requirement → Bool
unfolding has_content
is_paired old new r =
    count_p (has_content r.content) old == 1 && count_p (has_content r.content) new == 1

-- The items of the loop on `old`, for its rows from here on.
unfoldable pub pair_up : List Requirement → List Requirement → List Requirement → List SourceChange
unfolding is_paired change
pair_up old new [] = []
pair_up old new (left ∷ lefts) =
    let rest = pair_up old new lefts in
    if is_paired old new left
    then change unchanged
        "Cùng định danh, tài liệu logic, luồng và nội dung; nguồn mới vẫn cần duyệt riêng."
        (left ∷ []) (keep_if (has_content left.content) new)
      ∷ rest
    else rest

-- The `switch` on the rows that no pair has.
unfoldable pub leftover : List Requirement → List Requirement → List SourceChange
unfolding change
leftover [] [] = []
leftover [] (v ∷ vs) =
    map (λ r. change added "Không có ứng viên tương ứng trong phạm vi nguồn trước." [] (r ∷ []))
      (v ∷ vs)
leftover (v ∷ vs) [] =
    map
      (λ r.
        change removed "Không còn trong kết quả trích xuất của phạm vi mới; lịch sử vẫn được giữ."
          (r ∷ []) [])
      (v ∷ vs)
leftover (v ∷ []) (w ∷ []) =
    change changed "Khớp định danh + tài liệu logic + luồng; nội dung nghiệp vụ đã thay đổi."
      (v ∷ []) (w ∷ [])
    ∷ []
leftover vs ws =
    change ambiguous
      "Nhiều ứng viên cùng định danh/nguồn/luồng; không tự ghép hoặc chuyển quyết định duyệt." vs ws
    ∷ []

-- `strings.Contains(key, "UNKNOWN:")`.
unfoldable pub is_unknown : String → Bool
is_unknown key = is_some (find? key "UNKNOWN:")

-- The items of one key.
unfoldable pub compare_group :
    Bool → String → List Requirement → List Requirement → List SourceChange
unfolding is_unknown change pair_up leftover is_paired
compare_group had_before key old new =
    if had_before && is_unknown key
    then change ambiguous
        "Thiếu định danh nghiệp vụ ổn định; không suy đoán ánh xạ từ nội dung tương tự." old new
      ∷ []
    else pair_up old new old
      ++ leftover (keep_if (λ r. not (is_paired old new r)) old)
          (keep_if (λ r. not (is_paired old new r)) new)

unfoldable pub compare_keys :
    Bool → List Requirement → List Requirement → List String → List SourceChange
unfolding compare_group group
compare_keys had_before before after [] = []
compare_keys had_before before after (key ∷ keys) =
    compare_group had_before key (group key before) (group key after)
    ++ compare_keys had_before before after keys

-- `compareRequirements`.
unfoldable pub compare_requirements : List Requirement → List Requirement → List SourceChange
unfolding compare_keys keys_of
compare_requirements before after =
    compare_keys (elim before [ [] ↦ false | _ ∷ _ ↦ true ]) before after
      (keys_of (before ++ after))
