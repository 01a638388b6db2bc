-- ===== src/Review/Sentiment.antt =====
-- AppendSortingResult of GoodFood-BE/internal/utils/admin_reviews_helper.go.
use text.Mathlib.Text.{find?}
use good_food_be.Base.{
  ℕ, ◌+◌, String, Bool, false, ◌&&◌, List, [], ◌∷◌, ◌++◌, ◌==◌, leb, str_eq, if◌then◌else◌, is_some,
}
use good_food_be.Review.{AnalyzeResult}

-- strings.Contains
abbrev pub contains : String → String → Bool
contains s word = is_some (find? s word)

abbrev pub keywords : List String
keywords = "Khen" ∷ "Chê" ∷ "Ý kiến trung lập" ∷ []

abbrev pub counted : Bool → ℕ
counted b = if b then 1 else 0

unfoldable pub count_keywords : List String → String → ℕ
count_keywords [] summary = 0
count_keywords (word ∷ words) summary =
    counted (contains summary word) + count_keywords words summary

-- The cases of the switch; another text appends nothing.
unfoldable pub chosen : String → String → Bool
chosen sort summary =
    let count = count_keywords keywords summary in
    if str_eq sort "Positive Sentiment"
    then count == 1 && contains summary "Khen"
    else if str_eq sort "Negative Sentiment"
    then count == 1 && contains summary "Chê"
    else if str_eq sort "Neutral Sentiment"
    then count == 1 && contains summary "Ý kiến trung lập"
    else if str_eq sort "Mixed Sentiment"
    then leb 2 count
    else false

-- The loop, with what it has appended so far.
abbrev pub sorting : List AnalyzeResult → List AnalyzeResult → String → List AnalyzeResult
sorting kept [] sort = kept
sorting kept (s ∷ rest) sort =
    sorting (if chosen sort s.summary then kept ++ (s ∷ []) else kept) rest sort

unfoldable pub append_sorting_result : List AnalyzeResult → String → List AnalyzeResult
append_sorting_result result sort = sorting [] result sort
