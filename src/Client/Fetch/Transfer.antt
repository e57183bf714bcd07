-- ===== src/Client/Fetch/Transfer.antt =====
-- The loop that receives the response, and `Fetch` as a whole: client/src/assets/winhttp_fetch.cpp.
use custommodels.Base.{
  ℕ, zero, suc, ◌+◌, ◌-◌, ◌%◌, ◌^◌, not, ◌||◌, Option, none, some, ◌==◌, ltb, if◌then◌else◌, length,
  ok, err,
}
use custommodels.Assets.{Bytes, is_download_url_valid, maximum_individual_file_size}
use custommodels.Client.Files.{FilePath, FileSystem, open_output, write_output, close_output}
use custommodels.Client.Manager.{
  FetchError, no_error, unsupported_scheme, timeout, size_mismatch, disk_failure, FetchResult,
}
use custommodels.Client.Fetch.{FetchOptions, WinHttp, map_winhttp_error, parse_url, prepare}

-- A 64-bit difference.
abbrev pub sub64 : ℕ → ℕ → ℕ
sub64 a b = (a + 2 ^ 64 - b) % 2 ^ 64

abbrev buffer_size : ℕ
buffer_size = 65536

abbrev pub min_size : ℕ → ℕ → ℕ
min_size a b = if ltb b a then b else a

abbrev pub answer : FetchError → ℕ → FetchResult
answer error received = record { error = error; bytes_received = received }

-- How a round of the loop ends: with a return, with the `break`, or with the next count of bytes.
pub data Round : Type 0 where
  returned : FetchResult → Round
  finished : Round
  continued : ℕ → Round

module _ (destination : FilePath) (expected_size : ℕ) where
  -- What a round does with the bytes that were read.
  unfoldable pub store : FileSystem → ℕ → Bytes → FileSystem × Round
  store fs received bytes =
      let (written, good) = write_output fs destination bytes in
      if length bytes == 0 || ltb (sub64 expected_size received) (length bytes)
      then (fs, returned (answer size_mismatch received))
      else if not good
      then (written, returned (answer disk_failure received))
      else (written, continued (received + length bytes))

  -- Behind the loop.
  unfoldable pub conclude : FileSystem → ℕ → FileSystem × FetchResult
  conclude fs received =
      let (closed, good) = close_output fs in
      (
        closed,
        if not good
            then answer disk_failure received
            else if received == expected_size
            then answer no_error received
            else answer size_mismatch received,
      )

module _ {S : Type 0} (net : WinHttp S) (destination : FilePath) (expected_size : ℕ) where
  -- What a round does with the bytes that are available.
  unfoldable pub read_available : S → FileSystem → ℕ → ℕ → S × FileSystem × Round
  unfolding map_winhttp_error store
  read_available s fs received available =
      let (read, loaded) = net.read_data s (min_size available buffer_size) in
      if available == 0
      then (s, fs, finished)
      else if ltb (sub64 expected_size received) available
      then (s, fs, returned (answer size_mismatch received))
      else (elim loaded [
        | err code ↦ (read, fs, returned (answer (map_winhttp_error code) received))
        | ok bytes ↦
            let (files, round) = store destination expected_size fs received bytes in
            (read, files, round)
      ])

  -- One round of the loop, with the time that the transfer has.
  unfoldable pub run_round : FetchOptions → ℕ → S → FileSystem → ℕ → S × FileSystem × Round
  unfolding map_winhttp_error read_available
  run_round options started s fs received =
      let (timed, now) = net.tick_count s in
      if ltb options.transfer_timeout_milliseconds (sub64 now started)
      then (timed, fs, returned (answer timeout received))
      else let (queried, size) = net.query_data_available timed in
        elim size [
          | err code ↦ (queried, fs, returned (answer (map_winhttp_error code) received))
          | ok available ↦ read_available queried fs received available
        ]

  -- The loop on a number of rounds; `none` is out of rounds.
  unfoldable pub receive :
      ℕ → FetchOptions → ℕ → S → FileSystem → ℕ → S × FileSystem × Option FetchResult
  unfolding run_round conclude
  receive zero options started s fs received = (s, fs, none)
  receive (suc fuel) options started s fs received =
      let (moved, files, round) = run_round options started s fs received in
      elim round [
        | returned result ↦ (moved, files, some result)
        | finished ↦
            let (closed, result) = conclude destination expected_size files received in
            (moved, closed, some result)
        | continued more ↦ receive fuel options started moved files more
      ]

  -- The loop with the output file: one round more than there are bytes.
  unfoldable pub download_to : FetchOptions → S → FileSystem → S × FileSystem × Option FetchResult
  unfolding receive
  download_to options s fs =
      let (opened, good) = open_output fs destination in
      if not good
      then (s, opened, some (answer disk_failure 0))
      else let (timed, started) = net.tick_count s in
        receive (expected_size + 1) options started timed opened 0

  unfoldable pub fetch : FetchOptions → S → FileSystem → Bytes → S × FileSystem × Option FetchResult
  unfolding parse_url prepare download_to
  fetch options s fs url =
      if not (is_download_url_valid url)
        || expected_size == 0
        || ltb maximum_individual_file_size expected_size
      then (s, fs, some (answer unsupported_scheme 0))
      else let (cracked, parsed) = parse_url net s url in
        elim parsed [
          | none ↦ (cracked, fs, some (answer unsupported_scheme 0))
          | some target ↦
              let (prepared, result) = prepare net options expected_size target cracked in
              elim result [
                | err error ↦ (prepared, fs, some (answer error 0))
                | ok done ↦ download_to options prepared fs
              ]
        ]
