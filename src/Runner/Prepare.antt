-- ===== src/Runner/Prepare.antt =====
-- pkg/runner/grpc.go: `PrepareFunctionInstance`, and the table of downloads of
-- pkg/runner/instances.go. Files, downloads and the start of an instance are parameters.
use servermore.Base.{Bool, Option, String, false, none, some, true}
use servermore.Base.Maps.{Map, insert, lookup}
use servermore.Base.Results.{Result, err, ok, wrap, ◌>>=◌}

-- `IsDownloadedOrStartDownload`: the consumer of the download that is under way, or none for the
-- caller that is to download; and the table. `fresh` is the consumer that the call makes.
unfoldable pub is_downloaded_or_start_download {ℓ} :
    {C : Type ℓ} → String → C → Map C → Option C × Map C
is_downloaded_or_start_download path fresh downloads = elim (lookup path downloads) [
  | some consumer ↦ (some consumer, downloads)
  | none ↦ (none, insert path fresh downloads)
]

-- How the steps of one call may answer.
pub record Preparation : Type 0 where
  pub file_exists : Result String Bool
  pub under_way : Bool
  -- What comes over the channel of a download that is under way; none if the context ends first.
  pub other_download : Option (Result String String)
  pub own_download : Result String String
  pub start : String → Result String String

pub data PrepareError : Type 0 where
  existence_check_failed start_failed_with download_result_errored :
      (message : String) → PrepareError
  context_over : PrepareError
  download_errored : (message : String) → PrepareError

pub record Prepared : Type 0 where
  pub instance_id : String
  pub downloaded : Bool

-- The answer, and what the call hands to those that wait for its download.
abbrev pub Answer : Type 0
Answer = Result PrepareError Prepared × Option (Result String String)

module _ (p : Preparation) where
  abbrev pub started : String → Bool → Result PrepareError Prepared
  started path downloaded = wrap start_failed_with (p.start path) >>= λ id.
      ok (record { instance_id = id; downloaded = downloaded })

  abbrev pub after_other : Option (Result String String) → Result PrepareError Prepared
  after_other none = err context_over
  after_other (some (err e)) = err (download_result_errored e)
  after_other (some (ok path)) = started path false

  abbrev pub after_own : Result String String → Result PrepareError Prepared
  after_own (err e) = err (download_errored e)
  after_own (ok path) = started path true

  abbrev pub after_check : String → Result String Bool → Bool → Answer
  after_check path (err e) _ = (err (existence_check_failed e), none)
  after_check path (ok true) _ = (started path false, none)
  after_check path (ok false) true = (after_other p.other_download, none)
  after_check path (ok false) false = (after_own p.own_download, some p.own_download)

  unfoldable pub prepare_function_instance : String → Answer
  prepare_function_instance path = after_check path p.file_exists p.under_way
