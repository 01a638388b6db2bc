-- ===== src/Review/Upload.antt =====
-- What HandleSubmitReview and HandleUpdateReview of GoodFood-BE/internal/server/handlers/review.go do before they
-- write: they read the form and its files and have the comment and the images moderated. JSON, the files, the
-- microservice and the texts of their errors are parameters. The floating-point scores of
-- dto.ReviewContentDetection are only passed on and left out. An answer of the microservice with an HTTP status of
-- failure is no error of the client, and gives an empty ReviewContentDetection, which passes.
use Prim.Native.String.{◌++◌ as string_append}
use good_food_be.Base.{⊤, ℕ, ◌⊎◌, inl, inr, String, Bool, List, [], ◌∷◌, str_eq, if◌then◌else◌}
use good_food_be.Http.{ok, error, Action, ◌>>=◌, ◌>>◌, pure, error_if}
use good_food_be.Review.{Review, ReviewImage}

-- dto.ReviewSubmitRequest
pub record ReviewSubmitRequest : Type 0 where
  pub review : Review
  pub review_images : List ReviewImage

-- dto.ImageDetectionResult
pub record ImageDetectionResult : Type 0 where
  pub image : String
  pub nsfw : Bool
  pub violent : Bool
  pub violent_label : String

-- dto.ReviewContentDetection
pub record ReviewContentDetection : Type 0 where
  pub label : String
  pub images : List ImageDetectionResult

-- A file of the form, by what opening and reading it gives.
pub data Content : Type 0 where
  not_opened : String → Content
  not_read : String → Content
  bytes : String → Content

pub record FormFile : Type 0 where
  pub filename : String
  pub content : Content

-- The form value "review", and the files, or the text of MultipartForm's error.
pub record Form : Type 0 where
  pub review_json : String
  pub files : String ⊎ List FormFile

-- map[string][]byte
abbrev pub Binaries : Type 0
Binaries = List (String × String)

abbrev pub put : String → String → Binaries → Binaries
put name data_bytes [] = (name, data_bytes) ∷ []
put name data_bytes ((n, d) ∷ rest) =
    if str_eq n name then (name, data_bytes) ∷ rest else (n, d) ∷ put name data_bytes rest

-- `SendError(c, code, prefix+err.Error())`
abbrev pub or_prefixed : {S E A : Type 0} → String → ℕ → String ⊎ A → Action S E A
or_prefixed prefix code (inl wrong) s = (error code (string_append prefix wrong), s)
or_prefixed prefix code (inr a) s = (ok a, s)

abbrev pub read_content : Content → String ⊎ String
read_content (not_opened wrong) = inl (string_append "Failed to open image: " wrong)
read_content (not_read wrong) = inl (string_append "Failed to read image: " wrong)
read_content (bytes data_bytes) = inr data_bytes

-- The loop over the files; a name that comes twice keeps its last content.
abbrev pub put_content : String ⊎ Binaries → String → String ⊎ String → String ⊎ Binaries
put_content (inl wrong) name content = inl wrong
put_content (inr binaries) name (inl wrong) = inl wrong
put_content (inr binaries) name (inr data_bytes) = inr (put name data_bytes binaries)

abbrev pub read_files : String ⊎ Binaries → List FormFile → String ⊎ Binaries
read_files so_far [] = so_far
read_files so_far (file ∷ files) =
    read_files (put_content so_far file.filename (read_content file.content)) files

abbrev pub nsfw_text : String
nsfw_text = "⚠\u{fe0f} NSFW Content Detected. Please remove or replace the image: "

abbrev pub violence_text : String
violence_text = "⚠\u{fe0f} Violence Detected. Please remove or replace the image: "

-- The first image that is not accepted ends the request.
abbrev pub check_images : List ImageDetectionResult → String ⊎ ⊤
check_images [] = inr tt
check_images (img ∷ images) =
    if img.nsfw
    then inl (string_append nsfw_text img.image)
    else if img.violent
    then inl (string_append violence_text img.image)
    else check_images images

abbrev pub check_content : ReviewContentDetection → String ⊎ ⊤
check_content result =
    if str_eq result.label "toxic"
    then inl "⚠\u{fe0f} Hate Speech Detected: Please edit your comment."
    else check_images result.images

module _ (unmarshal : String → String ⊎ ReviewSubmitRequest)
    (moderate : String → Binaries → String ⊎ ReviewContentDetection) where
  -- The parsed body and the images' contents of a form that passes the moderation.
  unfoldable pub accept : {S : Type 0} → Form → Action S ⊥ (ReviewSubmitRequest × Binaries)
  accept form = do
    error_if (str_eq form.review_json "") 400 "Missing review data"
    body ← or_prefixed "Invalid review JSON: " 400 (unmarshal form.review_json)
    files ← or_prefixed "Error parsing multipart: " 400 form.files
    binaries ← or_prefixed "" 500 (read_files (inr []) files)
    result ← or_prefixed "Failed to call gRPC Flask: " 500 (moderate body.review.comment binaries)
    or_prefixed "" 400 (check_content result)
    pure (body, binaries)
