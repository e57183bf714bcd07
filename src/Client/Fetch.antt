-- ===== src/Client/Fetch.antt =====
-- The transfer of a file: `WinHttpFetchBackend` of client/src/assets/winhttp_fetch.cpp with the
-- options of client/include/custommodel/assets/fetch.hpp. The system's library is a parameter; the
-- diagnostics are left out.
pub mod Transfer
pub mod Rounds
pub mod Failures
pub mod Answers
use custommodels.Base.{
  ℕ, zero, suc, ◌+◌, ◌-◌, ◌%◌, ◌^◌, Bool, true, false, not, ◌||◌, ◌&&◌, List, [], ◌∷◌, ◌++◌, Option,
  none, some, ◌==◌, ltb, leb, if◌then◌else◌, length, Result, ok, err,
}
use custommodels.Assets.{Bytes, is_download_url_valid, maximum_individual_file_size}
use custommodels.Client.Files.{FilePath, FileSystem, open_output, write_output, close_output}
use custommodels.Client.Manager.{
  FetchError, no_error, unsupported_scheme, network_failure, timeout, size_mismatch, disk_failure,
  FetchResult,
}

pub record FetchOptions : Type 0 where
  pub redirect_limit : ℕ
  pub connection_timeout_milliseconds : ℕ
  pub transfer_timeout_milliseconds : ℕ

abbrev pub default_options : FetchOptions
default_options = record {
  redirect_limit = 5;
  connection_timeout_milliseconds = 10000;
  transfer_timeout_milliseconds = 120000;
}

-- `URL_COMPONENTS` as far as `ParseUrl` reads them; an empty string has the length 0.
pub record UrlComponents : Type 0 where
  pub scheme : ℕ
  pub host : Bytes
  pub port : ℕ
  pub path : Bytes
  pub extra : Bytes

-- The calls of WinHTTP that `Fetch` makes, and `GetTickCount64`, on a state of the system. A call
-- that fails gives the code of `GetLastError`.
pub record WinHttp (S : Type 0) : Type 0 where
  pub crack_url : S → Bytes → S × Result ℕ UrlComponents
  pub open_session : S → S × Option ℕ
  pub set_timeouts : S → ℕ → S × Option ℕ
  pub set_redirect_policy : S → S × Option ℕ
  pub connect : S → Bytes → ℕ → S × Option ℕ
  pub open_request : S → Bytes → Bool → S × Option ℕ
  pub set_redirect_limit : S → ℕ → S × Option ℕ
  pub reject_credentials : S → S × Option ℕ
  pub send_request : S → S × Option ℕ
  pub receive_response : S → S × Option ℕ
  pub query_status : S → S × Result ℕ ℕ
  pub query_content_length : S → S × Result ℕ ℕ
  pub tick_count : S → S × ℕ
  pub query_data_available : S → S × Result ℕ ℕ
  pub read_data : S → ℕ → S × Result ℕ Bytes

abbrev error_winhttp_timeout : ℕ
error_winhttp_timeout = 12002

abbrev error_winhttp_header_not_found : ℕ
error_winhttp_header_not_found = 12150

abbrev internet_scheme_http : ℕ
internet_scheme_http = 1

abbrev internet_scheme_https : ℕ
internet_scheme_https = 2

unfoldable pub map_winhttp_error : ℕ → FetchError
map_winhttp_error error = if error == error_winhttp_timeout then timeout else network_failure

pub record ParsedUrl : Type 0 where
  pub host : Bytes
  pub target : Bytes
  pub path : Bytes
  pub port : ℕ
  pub secure : Bool

-- What `ParseUrl` makes of the components.
unfoldable pub parse_components : UrlComponents → Option ParsedUrl
parse_components c =
    let path = elim (c.path) as (λ x. Bytes) [ [] ↦ b'/' ∷ [] | d ∷ rest ↦ d ∷ rest ] in
    if length c.host == 0
      || (not (c.scheme == internet_scheme_http) && not (c.scheme == internet_scheme_https))
    then none
    else some (record {
      host = c.host;
      target = path ++ c.extra;
      path = path;
      port = c.port;
      secure = c.scheme == internet_scheme_https;
    })

module _ {S : Type 0} (net : WinHttp S) where
  unfoldable pub parse_url : S → Bytes → S × Option ParsedUrl
  unfolding parse_components
  parse_url s url =
      let (cracked, components) = net.crack_url s url in
      (cracked, elim components [ err error ↦ none | ok c ↦ parse_components c ])

  -- A chain of calls: the first failure ends it, with `Failure` or an error of its own.
  abbrev pub Chain : Type 0 → Type 0
  Chain A = S → S × Result FetchError A

  abbrev pub follow :
      {A : Type 0} → S × Result FetchError (Unit {0}) → Chain A → S × Result FetchError A
  follow (moved, err error) second = (moved, err error)
  follow (moved, ok done) second = second moved

  infixl 5 ◌then◌
  abbrev pub ◌then◌ : {A : Type 0} → Chain (Unit {0}) → Chain A → Chain A
  (first then second) s = follow (first s) second

  abbrev pub attempt : (S → S × Option ℕ) → Chain (Unit {0})
  attempt call s =
      let (moved, error) = call s in
      (moved, elim error [ none ↦ ok tt | some code ↦ err (map_winhttp_error code) ])

  abbrev pub attempts : List (S → S × Option ℕ) → Chain (Unit {0})
  attempts [] s = (s, ok tt)
  attempts (call ∷ calls) s = follow (attempt call s) (attempts calls)

  -- A call whose failure is logged alone.
  abbrev optional : (S → S × Option ℕ) → S → S × Option ℕ
  optional call s = ((call s).0, none)

  abbrev int_max : ℕ
  int_max = 0x7fff_ffff

  -- The calls from `WinHttpOpen` to `WinHttpReceiveResponse`, in order.
  unfoldable pub requests : FetchOptions → ParsedUrl → List (S → S × Option ℕ)
  requests options url =
      let connect_timeout =
        if ltb int_max options.connection_timeout_milliseconds
        then int_max
        else options.connection_timeout_milliseconds in
      net.open_session
      ∷ (λ s. net.set_timeouts s connect_timeout)
      ∷ net.set_redirect_policy
      ∷ (λ s. net.connect s url.host url.port)
      ∷ (λ s. net.open_request s url.target url.secure)
      ∷ (λ s. net.set_redirect_limit s options.redirect_limit)
      ∷ optional net.reject_credentials
      ∷ net.send_request
      ∷ net.receive_response
      ∷ []

  unfoldable pub send : FetchOptions → ParsedUrl → Chain (Unit {0})
  unfolding requests map_winhttp_error
  send options url = attempts (requests options url)

  unfoldable pub check_status : Chain (Unit {0})
  unfolding map_winhttp_error
  check_status s =
      let (moved, status) = net.query_status s in
      (
        moved,
        elim status [
          | err code ↦ err (map_winhttp_error code)
          | ok code ↦ if not (code == 200) then err network_failure else ok tt
        ],
      )

  -- A response without the header passes.
  unfoldable pub check_content_length : ℕ → Chain (Unit {0})
  unfolding map_winhttp_error
  check_content_length expected_size s =
      let (moved, length) = net.query_content_length s in
      (
        moved,
        elim length [
          | err code ↦
              if not (code == error_winhttp_header_not_found)
              then err (map_winhttp_error code)
              else ok tt
          | ok n ↦ if not (n == expected_size) then err size_mismatch else ok tt
        ],
      )

  -- Everything in front of the output file.
  unfoldable pub prepare : FetchOptions → ℕ → ParsedUrl → Chain (Unit {0})
  unfolding send check_status check_content_length
  prepare options expected_size url =
      send options url then check_status then check_content_length expected_size
