-- ===== src/Execution/Answers.antt =====
-- internal/relayexec/executor.go: what the result of a request says.
use Prim.Native.Char.{Char}
use relayra.Prelude.{ℕ, String, ◌≡◌, ◌≢◌, ◌⊎◌, inr, []}
use relayra.Models.{RelayRequest, RelayResult}
use relayra.Execution.{Response, Client, first_values, set_all, create}

-- the result of an answer that was read whole
abbrev pub IsOf : Response → String → RelayResult → Type 0
IsOf response body result =
    result.error ≡ ""
    × result.status_code ≡ response.status_code
    × result.headers ≡ first_values response.header
    × result.body ≡ body

abbrev pub IsFailure : RelayResult → Type 0
IsFailure result = result.error ≢ "" × result.headers ≡ [] × result.body ≡ ""

module _ (client : Client) (req : RelayRequest) (timeout : ℕ) where
  -- the request was made with all its headers, was sent, and its answer was read
  abbrev pub IsAnswered : RelayResult → Type 0
  IsAnswered result =
      (http : client.Http) × (response : Response) × (body : String) × create client req ≡ inr http
      × client.send timeout (set_all client req.request.headers http) ≡ inr response
      × response.body ≡ inr body
      × IsOf response body result

  abbrev pub Answers : RelayResult → Type 0
  Answers result = result.request_id ≡ req.id × (IsAnswered result ⊎ IsFailure result)
