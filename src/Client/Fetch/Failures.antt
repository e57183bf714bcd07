-- ===== src/Client/Fetch/Failures.antt =====
-- A failure in front of the output file carries an error: client/src/assets/winhttp_fetch.cpp.
use custommodels.Base.{
  ℕ, ◌≡◌, false, List, [], ◌∷◌, Option, arith, ok, err, Result, Option-cases, Result-cases, inl,
  inr,
}
use custommodels.Client.Files.{path_key}
use custommodels.Client.Manager.{FetchError, is_fetched}
use custommodels.Client.Fetch.{
  FetchOptions, WinHttp, map_winhttp_error, prepare, attempt, attempts, ◌then◌, follow, requests,
  send, check_status, check_content_length, ParsedUrl,
}
use custommodels.Client.Fetch.Transfer.{answer}

-- A failure never carries the code of a success.
abbrev pub IsFailure : {A : Type 0} → Result FetchError A → Type 0
IsFailure (err error) = is_fetched (answer error 0) ≡ false
IsFailure (ok value) = Unit {0}

module _ {S : Type 0} where
  abbrev pub FailsRight : {A : Type 0} → (S → S × Result FetchError A) → Type 0
  FailsRight chain = (s : S) → IsFailure (chain s).1

module _ {S : Type 0} (net : WinHttp S) where
  follow-IsFailure :
      {A : Type 0} (r : S × Result FetchError (Unit {0})) (second : S → S × Result FetchError A)
      → IsFailure r.1
      → FailsRight second
      → IsFailure (follow net r second).1
  follow-IsFailure (moved, err error) second h k = h
  follow-IsFailure (moved, ok done) second h k = k moved

  attempt-FailsRight : (call : S → S × Option ℕ) → FailsRight (attempt net call)
  unfolding map_winhttp_error
  attempt-FailsRight call s = elim (Option-cases (call s).1) [
    | inl e ↦ rw e tt
    | inr (code, e) ↦ rw e (ground arith)
  ]

  attempts-FailsRight : (calls : List (S → S × Option ℕ)) → FailsRight (attempts net calls)
  attempts-FailsRight [] s = tt
  attempts-FailsRight (call ∷ calls) s =
      follow-IsFailure (attempt net call s) _ (attempt-FailsRight call s)
        (attempts-FailsRight calls)

  send-FailsRight : (options : FetchOptions) (url : ParsedUrl) → FailsRight (send net options url)
  unfolding send
  send-FailsRight options url = attempts-FailsRight (requests net options url)

  check_status-FailsRight : FailsRight (check_status net)
  unfolding check_status map_winhttp_error
  check_status-FailsRight s = elim (Result-cases (net.query_status s).1) [
    | inl (code, e) ↦ rw e (ground arith)
    | inr (code, e) ↦ rw e (ground arith)
  ]

  check_content_length-FailsRight : (n : ℕ) → FailsRight (check_content_length net n)
  unfolding check_content_length map_winhttp_error
  check_content_length-FailsRight n s = elim (Result-cases (net.query_content_length s).1) [
    | inl (code, e) ↦ rw e (ground arith)
    | inr (size, e) ↦ rw e (ground arith)
  ]

  pub prepare-FailsRight :
      (options : FetchOptions) (n : ℕ) (url : ParsedUrl) → FailsRight (prepare net options n url)
  unfolding prepare
  prepare-FailsRight options n url s =
      let sent = send net options url in
      follow-IsFailure ((◌then◌ net sent (check_status net)) s) _
        (follow-IsFailure (sent s) _ (send-FailsRight options url s) check_status-FailsRight)
        (check_content_length-FailsRight n)
