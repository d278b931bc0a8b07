-- ===== src/Runner/DownloadTests.antt =====
-- A run of the download of a function, and its theorem at a concrete input.
use servermore.Base.{
  String, [], ap, arith, if◌then◌else◌, ltb, none, refl, some, str_eq, subst, ℕ, ◌∷◌, ◌≡◌,
}
use servermore.Base.Maps.{insert, lookup}
use servermore.Base.Results.{err, ok, ok_or}
use servermore.Runner.Atomic.{IsAtomic, download_function-IsAtomic}
use servermore.Runner.Download.{BinaryReply, Disk, Files, download_function}
use servermore.Runner.Launch.{IsClean, Launch, native_start, native_start-IsClean}
use servermore.Runner.Prepare.{is_downloaded_or_start_download}
use servermore.Runner.Runtime.{Wait, slept, timed_out}
use servermore.Runner.SingleDownload.{
  DownloadReachable, DownloadReachable-HasOneDownload, Downloading, HasOneDownload, ask_download,
  download_step, no_download,
}

abbrev join : String → String → String
join root name = if str_eq root "/r" then "/r/f/x" else "f/x"

abbrev disk : Disk
disk = record {
  make_dir = ok tt;
  create_temp = ok "/r/f/tmp1";
  close_file = ok tt;
  change_mode = ok tt;
  rename = err "busy";
  remove = ok tt;
}

abbrev reply : BinaryReply
reply = record {
  status = 200;
  func_path = "f";
  func_name = "x";
  received = 1 ∷ 2 ∷ [];
  broken_off = none;
}

abbrev others : Files
others = ("/r/g", 9 ∷ []) ∷ []

fresh : (tmp : String) → disk.create_temp ≡ ok tmp → lookup tmp others ≡ none
unfolding lookup
fresh tmp e = subst (λ t. lookup t others ≡ none) (ap (ok_or "") e) refl

download_function-IsAtomic_example :
    IsAtomic join "/r" disk (ok reply) others (download_function join "/r" disk (ok reply) others)
download_function-IsAtomic_example =
    download_function-IsAtomic join "/r" disk refl others fresh (ok reply)

-- The function is started at the first attempt, but no client can be made.
abbrev slow_wait : ℕ → Wait
slow_wait k = if ltb k 3 then slept else timed_out

native_start-IsClean_example :
    (launch : Launch) × (native_start {Cmd = String}
        (λ k. ok tt)
        slow_wait
        5
        (ok 8080)
        (λ k. ok "process")
        (err "no client")
        (record { processes = 2; connections = 2 })
      ≡ some launch)
    × IsClean (record { processes = 2; connections = 2 }) launch
native_start-IsClean_example =
    native_start-IsClean (λ k. ok tt) slow_wait 5 (ok 8080) (λ k. ok "process") (err "no client")
      (record { processes = 2; connections = 2 }) 3 (omega arith) (omega arith) (λ e. cc)

-- One goroutine downloads "/r/f", and a second one waits for it.
abbrev two_downloads : Downloading ℕ
two_downloads = record { downloads = ("/r/f", 1) ∷ []; active = ("/r/f", 1) ∷ [] }

both_downloads : DownloadReachable two_downloads
unfolding is_downloaded_or_start_download lookup insert
both_downloads =
    download_step _ _ (download_step _ _ no_download (ask_download "/r/f" 1))
      (ask_download "/r/f" 2)

DownloadReachable-HasOneDownload_example : HasOneDownload two_downloads
DownloadReachable-HasOneDownload_example =
    DownloadReachable-HasOneDownload two_downloads both_downloads
