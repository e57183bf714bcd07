-- ===== src/Client/Fetch/Rounds.antt =====
-- What a round of the transfer leaves: client/src/assets/winhttp_fetch.cpp.
use custommodels.Base.{
  ℕ, ◌≤◌, ◌<◌, ◌≡◌, refl, false, ◌||◌, ◌++◌, ◌==◌, ltb, length, length-append, arith, Bool-cases,
  Result-cases, inl, inr,
}
use custommodels.Assets.{Bytes}
use custommodels.Client.Files.{
  FilePath, FileSystem, file, path_key, HasFile, is_faulty, write_output, put-same,
}
use custommodels.Client.Manager.{is_fetched}
use custommodels.Client.Fetch.{FetchOptions, WinHttp, map_winhttp_error}
use custommodels.Client.Fetch.Transfer.{
  sub64, min_size, Round, returned, finished, continued, store, read_available, run_round,
}

module _ (destination : FilePath) (expected_size : ℕ) where
  -- What a round leaves: where it goes on, the file has grown within its bound.
  abbrev pub IsRound : Bytes → ℕ → FileSystem × Round → Type 0
  IsRound content received (fs, returned result) =
      HasFile fs destination content
      × (is_fetched result ≡ false)
      × (result.bytes_received ≡ received)
  IsRound content received (fs, finished) = HasFile fs destination content
  IsRound content received (fs, continued more) =
      (longer : Bytes) × HasFile fs destination longer
      × (length longer ≡ more)
      × (received < more)
      × (more ≤ expected_size)

module _ (destination : FilePath) (expected_size : ℕ) (small : expected_size ≤ 67108864)
    (fs : FileSystem) (content : Bytes) (received : ℕ) (held : HasFile fs destination content)
    (size : length content ≡ received) (bound : received ≤ expected_size) where
  store-IsRound :
      (bytes : Bytes)
      → IsRound destination expected_size content received
          (store destination expected_size fs received bytes)
  unfolding store write_output
  store-IsRound bytes =
      elim (Bool-cases (length bytes == 0 || ltb (sub64 expected_size received) (length bytes))) [
        | inl e ↦ rw e (held, refl, refl)
        | inr e ↦ elim (Bool-cases (is_faulty fs)) [
          | inl bad ↦ rw (e, bad) (held, refl, refl)
          | inr good ↦
              rw (e, good)
                (
                  content ++ bytes,
                  rw held (put-same destination (file (content ++ bytes)) fs.entries),
                  omega (arith, length-append content bytes, size),
                  ground (arith, e),
                  ground (arith, e, small, bound),
                )
        ]
      ]

  module _ {S : Type 0} (net : WinHttp S) where
    abbrev pub IsRun : S × FileSystem × Round → Type 0
    IsRun r = IsRound destination expected_size content received (r.1, r.2)

    read_available-IsRun :
        (s : S) (available : ℕ)
        → IsRun (read_available net destination expected_size s fs received available)
    unfolding read_available map_winhttp_error
    read_available-IsRun s available = elim (Bool-cases (available == 0)) [
      | inl e ↦ rw e held
      | inr e ↦ elim (Bool-cases (ltb (sub64 expected_size received) available)) [
        | inl much ↦ rw (e, much) (held, refl, refl)
        | inr room ↦ elim (Result-cases (net.read_data s (min_size available 65536)).1) [
          | inl (code, r) ↦ rw (e, room, r) (held, ground arith, refl)
          | inr (bytes, r) ↦ rw (e, room, r) (store-IsRound bytes)
        ]
      ]
    ]

    pub run_round-IsRun :
        (options : FetchOptions) (started : ℕ) (s : S)
        → IsRun (run_round net destination expected_size options started s fs received)
    unfolding run_round map_winhttp_error
    run_round-IsRun options started s =
        let timed = net.tick_count s in
        elim (Bool-cases (ltb options.transfer_timeout_milliseconds (sub64 timed.1 started))) [
          | inl e ↦ rw e (held, refl, refl)
          | inr e ↦ elim (Result-cases (net.query_data_available timed.0).1) [
            | inl (code, r) ↦ rw (e, r) (held, ground arith, refl)
            | inr (available, r) ↦ rw (e, r) (read_available-IsRun _ available)
          ]
        ]
