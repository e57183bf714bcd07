-- ===== src/Client/Fetch/Answers.antt =====
-- Every transfer ends, within the size that was declared: client/src/assets/winhttp_fetch.cpp.
use custommodels.Base.{
  ℕ, zero, suc, ◌+◌, ◌≤◌, ◌<◌, ◌≡◌, refl, sym, subst, ◌∙◌, true, false, not, ◌||◌, [], Option, some,
  ◌==◌, ltb, length, arith, Bool-cases, Option-cases, Result-cases, inl, inr, ◌⊎◌,
}
use custommodels.Assets.{Bytes, is_download_url_valid}
use custommodels.Client.Files.{FilePath, FileSystem, next, path_key, HasFile, close_output}
use custommodels.Client.Files.Outcomes.{open_output-cases}
use custommodels.Client.Manager.{FetchError, FetchResult, is_fetched}
use custommodels.Client.Fetch.{FetchOptions, WinHttp, parse_url, prepare}
use custommodels.Client.Fetch.Transfer.{
  answer, Round, returned, finished, continued, run_round, conclude, receive, download_to, fetch,
}
use custommodels.Client.Fetch.Rounds.{IsRound, run_round-IsRun}
use custommodels.Client.Fetch.Failures.{IsFailure, prepare-FailsRight}

module _ {S : Type 0} (net : WinHttp S) (destination : FilePath) (expected_size : ℕ) where
  -- There is a result within the bound, the output file holds as many bytes as it counts, and a
  -- success counts all of them.
  abbrev pub IsEnded : S × FileSystem × Option FetchResult → Type 0
  IsEnded r =
      (result : FetchResult) × (r.2 ≡ some result)
      × (result.bytes_received ≤ expected_size)
      × ((content : Bytes) × HasFile r.1 destination content
          × (length content ≡ result.bytes_received))
      × (is_fetched result ≡ true → result.bytes_received ≡ expected_size)

  module _ (small : expected_size ≤ 67108864) (options : FetchOptions) (started : ℕ) where
    -- The loop ends in `fuel` rounds from a file of `received` bytes.
    abbrev Ends : ℕ → Type 0
    Ends fuel =
        (s : S) (fs : FileSystem) (content : Bytes) (received : ℕ)
        → HasFile fs destination content
        → length content ≡ received
        → received ≤ expected_size
        → expected_size < received + fuel
        → IsEnded (receive net destination expected_size fuel options started s fs received)

    conclude-IsEnded :
        (s : S) (fs : FileSystem) (content : Bytes) (received : ℕ)
        → HasFile fs destination content
        → length content ≡ received
        → received ≤ expected_size
        → IsEnded (
          s,
          (conclude destination expected_size fs received).0,
          some (conclude destination expected_size fs received).1,
        )
    unfolding conclude close_output
    conclude-IsEnded s fs content received held size bound = (
      (conclude destination expected_size fs received).1,
      refl,
      ground (arith, bound),
      (content, held, ground (arith, size)),
      ground arith,
    )

    receive-IsEnded : (fuel : ℕ) → Ends fuel
    unfolding receive
    receive-IsEnded zero s fs content received held size bound enough = absurd (omega arith)
    receive-IsEnded (suc fuel) s fs content received held size bound enough =
        ran (receive-IsEnded fuel) r.0 r.1 r.2 (
          run_round-IsRun destination expected_size small fs content received held size bound net
            options started s)
      where
        r : S × FileSystem × Round
        r = run_round net destination expected_size options started s fs received

        ran :
            Ends fuel
            → (moved : S) (files : FileSystem) (round : Round)
            → IsRound destination expected_size content received (files, round)
            → IsEnded (elim round [
              | returned result ↦ (moved, files, some result)
              | finished ↦
                  let (closed, result) = conclude destination expected_size files received in
                  (moved, closed, some result)
              | continued more ↦
                  receive net destination expected_size fuel options started moved files more
            ])
        ran next moved files (returned result) h = (
          result,
          refl,
          omega (arith, h.2, bound),
          (content, h.0, size ∙ sym h.2),
          λ q. absurd (cc),
        )
        ran next moved files finished h = conclude-IsEnded moved files content received h size bound
        ran next moved files (continued more) (longer, there, long, grown, fits) =
            next moved files longer more there long fits (omega arith)

module _ {S : Type 0} (net : WinHttp S) (destination : FilePath) (expected_size : ℕ) where
  -- There is a result within the bound; a success counts all bytes, and the destination holds them.
  abbrev pub IsAnswered : S × FileSystem × Option FetchResult → Type 0
  IsAnswered r =
      (result : FetchResult) × (r.2 ≡ some result)
      × (result.bytes_received ≤ expected_size)
      × ((is_fetched result ≡ false)
          ⊎ ((is_fetched result ≡ true)
              × (result.bytes_received ≡ expected_size)
              × ((content : Bytes) × HasFile r.1 destination content
                  × (length content ≡ expected_size))))

  refused :
      (s : S) (fs : FileSystem) (error : FetchError)
      → is_fetched (answer error 0) ≡ false
      → IsAnswered (s, fs, some (answer error 0))
  refused s fs error h = (answer error 0, refl, omega arith, inl h)

  download_to-IsAnswered :
      (options : FetchOptions) (s : S) (fs : FileSystem)
      → expected_size ≤ 67108864
      → IsAnswered (download_to net destination expected_size options s fs)
  unfolding download_to
  download_to-IsAnswered options s fs small = elim (open_output-cases fs destination) [
    | inl e ↦ rw e (refused s (next fs) _ refl)
    | inr (opened, held, e) ↦
        let timed = net.tick_count s in
        let (result, same, bound, (content, there, size), full) =
          receive-IsEnded net destination expected_size small options timed.1 (expected_size + 1)
            timed.0 opened [] 0 held refl (omega arith) (omega arith) in
        rw e (
          result,
          same,
          bound,
          elim (Bool-cases (is_fetched result)) [
            | inr q ↦ inl q
            | inl q ↦ inr (q, full q, (content, there, size ∙ full q))
          ],
        )
  ]

  -- For every state of the network and the disk, every URL and every options, the transfer ends: the
  -- loop has a result in one round more than there are declared bytes. It never counts more bytes
  -- than were declared; and it reports a failure, or it counts exactly the declared bytes and the
  -- destination holds a file of that size.
  pub fetch-IsAnswered :
      (options : FetchOptions) (s : S) (fs : FileSystem) (url : Bytes)
      → IsAnswered (fetch net destination expected_size options s fs url)
  unfolding fetch
  fetch-IsAnswered options s fs url =
      elim (Bool-cases
        (not (is_download_url_valid url) || expected_size == 0 || ltb 67108864 expected_size)) [
          | inl e ↦ rw e (refused s fs _ refl)
          | inr e ↦ elim (Option-cases (parse_url net s url).1) [
            | inl p ↦ rw (e, p) (refused (parse_url net s url).0 fs _ refl)
            | inr (target, p) ↦
                let c = prepare net options expected_size target (parse_url net s url).0 in
                let right =
                  prepare-FailsRight net options expected_size target (parse_url net s url).0 in
                elim (Result-cases c.1) [
                  | inl (error, q) ↦ rw (e, p, q) (refused c.0 fs _ (subst IsFailure q right))
                  | inr (done, q) ↦
                      rw (e, p, q) (download_to-IsAnswered options c.0 fs (ground (arith, e)))
                ]
          ]
        ]
