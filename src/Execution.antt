-- ===== src/Execution.antt =====
-- internal/relayexec/executor.go: ExecuteRequest, which carries out a request. net/http is a
-- parameter: how it makes a request, sets a header, sends the request within a time, and reads the
-- body of the answer. The lines of the log are left out.
pub mod Answers
use Prim.Native.String.{◌++◌}
use relayra.Prelude.{
  ℕ, String, Option, none, some, List, [], ◌∷◌, ◌⊎◌, inl, inr, ◌==ₛ◌, if◌then◌else◌,
}
use relayra.Models.{RelayRequest, RelayResult}

-- what a server answered; `inl` is an error of reading, here and below
pub record Response : Type 0 where
  pub status_code : ℕ
  pub header : List (String × List String)
  pub body : String ⊎ String

pub record Client : Type 1 where
  pub Http : Type 0
  pub new_request : String → String → Option String → String ⊎ Http
  pub set : Http → String → String → Http
  pub send : ℕ → Http → String ⊎ Response

abbrev pub body_reader : String → Option String
body_reader body = if body ==ₛ "" then none else some body

-- the first value of each header that has one
abbrev pub first_values : List (String × List String) → List (String × String)
first_values [] = []
first_values ((k, []) ∷ header) = first_values header
first_values ((k, v ∷ _) ∷ header) = (k, v) ∷ first_values header

abbrev pub failed : RelayRequest → ℕ → String → ℕ → ℕ → RelayResult
failed req status_code error duration executed_at = record {
  request_id = req.id;
  status_code = status_code;
  headers = [];
  body = "";
  error = error;
  duration = duration;
  executed_at = executed_at;
}

abbrev pub after_read : RelayRequest → ℕ → ℕ → Response → String ⊎ String → RelayResult
after_read req duration executed_at response (inl error) =
    failed req response.status_code ("read response: " ++ error) duration executed_at
after_read req duration executed_at response (inr body) = record {
  request_id = req.id;
  status_code = response.status_code;
  headers = first_values response.header;
  body = body;
  error = "";
  duration = duration;
  executed_at = executed_at;
}

abbrev pub after_send : RelayRequest → ℕ → ℕ → String ⊎ Response → RelayResult
after_send req duration executed_at (inl error) =
    failed req 0 ("execute request: " ++ error) duration executed_at
after_send req duration executed_at (inr response) =
    after_read req duration executed_at response response.body

module _ (client : Client) where
  abbrev pub set_all : List (String × String) → client.Http → client.Http
  set_all [] http = http
  set_all ((k, v) ∷ headers) http = set_all headers (client.set http k v)

  abbrev pub create : RelayRequest → String ⊎ client.Http
  create req = client.new_request req.request.method req.request.url (body_reader req.request.body)

  abbrev pub after_create : RelayRequest → ℕ → ℕ → ℕ → String ⊎ client.Http → RelayResult
  after_create req timeout duration executed_at (inl error) =
      failed req 0 ("create request: " ++ error) duration executed_at
  after_create req timeout duration executed_at (inr http) =
      after_send req duration executed_at (client.send timeout (set_all req.request.headers http))

  unfoldable pub execute_request : RelayRequest → ℕ → ℕ → ℕ → RelayResult
  execute_request req timeout duration executed_at =
      after_create req timeout duration executed_at (create req)
