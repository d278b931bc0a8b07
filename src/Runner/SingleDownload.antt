-- ===== src/Runner/SingleDownload.antt =====
-- pkg/runner/grpc.go: the downloads of `PrepareFunctionInstance`, with the table `DownloadsSyncMap` of
-- pkg/runner/instances.go. At most one goroutine at a time downloads the file of a path.
use servermore.Base.{
  Option, Option-cases, String, [], inl, inr, none, refl, some, subst, sym, ◌++◌, ◌∷◌, ◌≡◌, ◌≢◌,
}
use servermore.Base.Maps.{Map, delete, insert, lookup}
use servermore.Runner.Prepare.{is_downloaded_or_start_download}
use servermore.Runner.SingleStart.{
  Starting, at_most_one, consumers_of, ended-IsSingle, told-IsSingle,
}

-- The table of downloads, and the goroutines that were told to download and have not yet answered, each
-- with its path and the consumer through which it will answer.
pub record Downloading (C : Type 0) : Type 0 where
  pub downloads : Map C
  pub active : Map C

-- `DownloadsSyncMap.Delete`, whose assertion is a premise of the step that calls it.
unfoldable pub delete_download {ℓ} : {C : Type ℓ} → String → Map C → Map C
delete_download path downloads = delete path downloads

module _ {C : Type 0} where
  abbrev pub no_downloads : Downloading C
  no_downloads = record { downloads = []; active = [] }

  -- What a goroutine goes on to do: wait for a consumer, or download.
  abbrev pub told_to : String → C → Downloading C → Option C × Map C → Downloading C
  told_to path fresh d (some consumer, table) = record d { downloads = table }
  told_to path fresh d (none, table) = record {
    downloads = table;
    active = (path, fresh) ∷ d.active;
  }

pub data DownloadStep {C : Type 0} (d : Downloading C) : Downloading C → Type 0 where
  ask_download :
      (path : String) (fresh : C)
      → DownloadStep d
          (told_to path fresh d (is_downloaded_or_start_download path fresh d.downloads))
  -- `downloadFunction` has returned, with an error or without: `Delete`, then `SubmitResult`.
  download_over :
      (path : String) (consumer : C) (before behind : Map C)
      → path ≢ ""
      → d.active ≡ before ++ ((path, consumer) ∷ behind)
      → DownloadStep d
          (record { downloads = delete_download path d.downloads; active = before ++ behind })

pub data DownloadReachable {C : Type 0} : Downloading C → Type 0 where
  no_download : DownloadReachable no_downloads
  download_step :
      (d d' : Downloading C) → DownloadReachable d → DownloadStep d d' → DownloadReachable d'

-- The goroutines that download a path are one, where the table names its consumer, or none.
abbrev pub HasOneDownload : {C : Type 0} → Downloading C → Type 0
HasOneDownload d =
    (path : String) → consumers_of path d.active ≡ at_most_one (lookup path d.downloads)

-- The same table and goroutines, as those that start instances.
abbrev as_starting : {C : Type 0} → Downloading C → Starting (Unit {0}) C
as_starting d = record {
  states = record { starting_instances = d.downloads; instance_states = [] };
  starting = d.active;
}

first_asks :
    {C : Type 0} (path : String) (fresh : C) (downloads : Map C)
    → lookup path downloads ≡ none
    → is_downloaded_or_start_download path fresh downloads ≡ (none, insert path fresh downloads)
unfolding is_downloaded_or_start_download
first_asks path fresh downloads e = rw (e, is_downloaded_or_start_download) refl

other_asks :
    {C : Type 0} (path : String) (fresh consumer : C) (downloads : Map C)
    → lookup path downloads ≡ some consumer
    → is_downloaded_or_start_download path fresh downloads ≡ (some consumer, downloads)
unfolding is_downloaded_or_start_download
other_asks path fresh consumer downloads e = rw (e, is_downloaded_or_start_download) refl

DownloadStep-HasOneDownload :
    {C : Type 0} (d d' : Downloading C) → HasOneDownload d → DownloadStep d d' → HasOneDownload d'
unfolding is_downloaded_or_start_download delete_download
DownloadStep-HasOneDownload d d' one (ask_download path fresh) =
    elim (Option-cases (lookup path d.downloads)) [
      | inl none_yet ↦
          subst (λ answer. HasOneDownload (told_to path fresh d answer))
            (sym (first_asks path fresh d.downloads none_yet))
            (told-IsSingle (as_starting d) path fresh none one none_yet)
      | inr (consumer, found) ↦
          subst (λ answer. HasOneDownload (told_to path fresh d answer))
            (sym (other_asks path fresh consumer d.downloads found)) one
    ]
DownloadStep-HasOneDownload d d' one (download_over path consumer before behind named e) =
    ended-IsSingle (as_starting d) path consumer before behind one e

-- However the goroutines that prepare instances interleave, those that download the file of a path are
-- the one whose consumer the table names for the path, or none.
pub DownloadReachable-HasOneDownload :
    {C : Type 0} (d : Downloading C) → DownloadReachable d → HasOneDownload d
unfolding consumers_of lookup
DownloadReachable-HasOneDownload d no_download = λ path. refl
DownloadReachable-HasOneDownload d' (download_step d same earlier step) =
    DownloadStep-HasOneDownload d d' (DownloadReachable-HasOneDownload d earlier) step
