-- ===== src/Review/Tests.antt =====
-- Two reviews that are analysed, listed and submitted.
use good_food_be.Base.{ℕ, ◌≡◌, refl, ◌⊎◌, inr, String, true, none, some, List, [], ◌∷◌, All, arith}
use good_food_be.Base.Int.{pos, negsuc}
use good_food_be.Store.{done}
use good_food_be.Store.Memory.{memory, memory_run}
use good_food_be.Cache.{Redis}
use good_food_be.Cache.Server.{server, empty}
use good_food_be.Http.{panic}
use good_food_be.Paging.Rational.{rational}
use good_food_be.Review.{Review, AnalyzeResult, ReviewTable, ImageTable, review_key, image_key}
use good_food_be.Review.Sentiment.{append_sorting_result, chosen, count_keywords}
use good_food_be.Review.Analysis.{
  State as AnalysisState, AnalysisPage, get_admin_review_analysis, sorted_by,
}
use good_food_be.Review.Bounds.{page_of, part_of, get_admin_review_analysis-page_of}
use good_food_be.Review.Listing.{State as ListState, ReviewPage, ListQuery}
use good_food_be.Review.Unanswered.{Refused, serve, serve-Refused}
use good_food_be.Review.Upload.{ReviewSubmitRequest, ReviewContentDetection, Form, Binaries}
use good_food_be.Review.Submit.{State as SubmitState, handle_submit_review}
use good_food_be.Review.Update.{handle_update_review}
use good_food_be.Review.Reworked.{Reworks, handle_update_review-Reworks}
use good_food_be.Review.Moderated.{Submits, handle_submit_review-Submits}

abbrev pub reviews : ReviewTable
reviews = memory review_key (λ r id. record r { review_id = id }) (λ r id. refl)

abbrev pub images : ImageTable
images = memory image_key (λ r id. record r { review_image_id = id }) (λ r id. refl)

abbrev pub good : Review
good = record {
  review_id = 1;
  review_date = 738000;
  stars = 5;
  comment = "Ngon";
  status = true;
  product_id = 3;
  account_id = 7;
  invoice_id = 2;
}

abbrev praised : AnalyzeResult
praised = record {
  review_id = 1;
  review = "Ngon";
  clauses = "Ngon" ∷ [];
  analysis = [];
  summary = "Khen";
}

abbrev mixed : AnalyzeResult
mixed = record {
  review_id = 2;
  review = "Ngon mà đắt";
  clauses = [];
  analysis = [];
  summary = "Khen, Chê";
}

abbrev pub analyze : List String → List ℕ → String ⊎ List AnalyzeResult
analyze comments ids = inr (praised ∷ mixed ∷ [])

kept_run : append_sorting_result (praised ∷ mixed ∷ []) "Mixed Sentiment" ≡ mixed ∷ []
unfolding append_sorting_result chosen count_keywords
kept_run = refl

abbrev sort : String
sort = "Positive Sentiment"

abbrev no_pages : AnalysisState
no_pages = record { reviews = good ∷ []; cache = empty }

abbrev analysis_server : Redis AnalysisPage
analysis_server = server

get_admin_review_analysis-page_of_example :
    ((get_admin_review_analysis rational reviews analysis_server analyze (pos 1) sort no_pages).0
      ≡ page_of rational reviews analysis_server analyze
          (pos 1)
          sort
          (sorted_by sort (praised ∷ mixed ∷ []))
          (part_of 0 (sorted_by sort (praised ∷ mixed ∷ []))))
    × ((get_admin_review_analysis rational reviews analysis_server analyze
          (negsuc 0)
          sort
          no_pages).0
        ≡ panic)
unfolding memory_run
get_admin_review_analysis-page_of_example =
    get_admin_review_analysis-page_of rational reviews analysis_server analyze 0 sort no_pages
      (good ∷ []) (praised ∷ mixed ∷ []) (omega arith) (λ page. refl) refl refl

abbrev list_server : Redis (ReviewPage Unit Unit)
list_server = server

abbrev no_lists : ListState Unit Unit
no_lists = record { reviews = good ∷ []; cache = empty }

abbrev query : ListQuery
query = record {
  page = pos 1;
  sort = "Comment";
  search = "";
  date_from = "2020-01-01";
  date_to = "2026-01-01";
}

serve-Refused_example : All (Refused no_lists) (
    serve rational reviews list_server
      (λ date. some 738000)
      (λ name. done [])
      (λ text. inr (pos 5))
      (λ search text. true)
      (λ time. time)
      analyze
      (λ t. done (record { total_review = 1; total_5s = 1 }))
      (λ r. (tt, tt))
      "redis: nil"
      (query ∷ query ∷ [])
      no_lists)
serve-Refused_example =
    serve-Refused rational reviews list_server (λ date. some 738000) (λ name. done [])
      (λ text. inr (pos 5)) (λ search text. true) (λ time. time) analyze
      (λ t. done (record { total_review = 1; total_5s = 1 })) (λ r. (tt, tt)) "redis: nil"
      (query ∷ query ∷ []) no_lists (λ key is v e. ground arith)

abbrev pub form : Form
form = record { review_json = "{}"; files = inr [] }

abbrev pub unmarshal : String → String ⊎ ReviewSubmitRequest
unmarshal json = inr (record { review = good; review_images = [] })

abbrev pub moderate : String → Binaries → String ⊎ ReviewContentDetection
moderate comment binaries = inr (record { label = "clean"; images = [] })

abbrev before : SubmitState Unit
before = record { reviews = []; images = []; cache = empty }

handle_submit_review-Submits_example :
    Submits {V = Unit} reviews images none unmarshal moderate
      (λ binaries. inr [])
      form
      before
      (handle_submit_review reviews images none (λ binaries. inr []) unmarshal moderate form before)
handle_submit_review-Submits_example =
    handle_submit_review-Submits reviews images none unmarshal moderate (λ binaries. inr []) form
      before

abbrev listed : SubmitState Unit
listed = record { reviews = good ∷ []; images = []; cache = empty }

handle_update_review-Reworks_example :
    Reworks {V = Unit} reviews images none unmarshal moderate
      (λ binaries. inr [])
      (λ name. inr tt)
      1
      form
      listed
      (handle_update_review reviews images none
        (λ binaries. inr [])
        (λ name. inr tt)
        unmarshal
        moderate
        1
        form
        listed)
handle_update_review-Reworks_example =
    handle_update_review-Reworks reviews images none unmarshal moderate (λ binaries. inr [])
      (λ name. inr tt) 1 form listed
