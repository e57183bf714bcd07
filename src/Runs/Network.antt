-- ===== src/Runs/Network.antt =====
-- A transfer over a network of given responses, and the component of the host:
-- client/src/assets/winhttp_fetch.cpp and server/openmp/component.cpp.
use custommodels.Base.{ℕ, List, [], ◌∷◌, some, none, length, Result, ok, err, nat_key}
use custommodels.Assets.{Bytes}
use custommodels.Client.Files.{FilePath, FileSystem, directory}
use custommodels.Client.Fetch.{WinHttp, default_options}
use custommodels.Client.Fetch.Transfer.{fetch}
use custommodels.Client.Fetch.Answers.{IsAnswered, fetch-IsAnswered}
use custommodels.Runs.Samples.{url}

-- The chunks that are still to arrive.
abbrev Chunks : Type 0
Chunks = List Bytes

abbrev next_size : Chunks → ℕ
next_size [] = 0
next_size (chunk ∷ chunks) = length chunk

abbrev read_next : Chunks → Chunks × Result ℕ Bytes
read_next [] = ([], ok [])
read_next (chunk ∷ chunks) = (chunks, ok chunk)

abbrev network : WinHttp Chunks
network = record {
  crack_url =
      λ s u. (s, ok (record { scheme = 2; host = b'h' ∷ []; port = 443; path = []; extra = [] }));
  open_session = λ s. (s, none);
  set_timeouts = λ s n. (s, none);
  set_redirect_policy = λ s. (s, none);
  connect = λ s host port. (s, none);
  open_request = λ s target secure. (s, none);
  set_redirect_limit = λ s n. (s, none);
  reject_credentials = λ s. (s, some 12009);
  send_request = λ s. (s, none);
  receive_response = λ s. (s, none);
  query_status = λ s. (s, ok 200);
  query_content_length = λ s. (s, err 12150);
  tick_count = λ s. (s, 0);
  query_data_available = λ s. (s, ok (next_size s));
  read_data = λ s n. read_next s;
}

abbrev chunks : Chunks
chunks = (1 ∷ 2 ∷ []) ∷ (3 ∷ []) ∷ []

abbrev destination : FilePath
destination = (b't' ∷ []) ∷ (b'x' ∷ []) ∷ []

abbrev files : FileSystem
files = record { entries = ((b't' ∷ []) ∷ [], directory) ∷ []; faults = [] }

fetch-IsAnswered_example :
    IsAnswered network destination 3 (fetch network destination 3 default_options chunks files url)
fetch-IsAnswered_example = fetch-IsAnswered network destination 3 default_options chunks files url
