-- ===== src/Tests/Execution.antt =====
-- The theorem of Execution at a concrete input: a client that sends only to one URL, and gets the
-- body back.
use relayra.Prelude.{
  String, ◌≡◌, refl, Option, none, some, [], ◌∷◌, inl, inr, ◌==ₛ◌, if◌then◌else◌, false,
}
use relayra.Models.{RelayRequest, RelayResult, RequestStatus}
use relayra.Execution.{Client, Response, execute_request}
use relayra.Execution.Answers.{Answers}

abbrev body_of : Option String → String
body_of none = ""
body_of (some body) = body

abbrev response : String → Response
response body = record {
  status_code = 200;
  header = ("Empty", []) ∷ ("Via", "a" ∷ "b" ∷ []) ∷ [];
  body = inr body;
}

abbrev client : Client
client = record {
  Http = String;
  new_request =
      λ method url body. if url ==ₛ "/echo" then inr (body_of body) else inl "no such URL";
  set = λ http k v. http;
  send = λ timeout http. inr (response http);
}

abbrev request : String → RelayRequest
request url = record {
  id = "r1";
  destination_id = "p1";
  webhook_url = "";
  async = false;
  request = record { url = url; method = "POST"; headers = ("Accept", "*") ∷ []; body = "hi" };
  status = RequestStatus.executing;
  created_at = 0;
}

abbrev result : String → RelayResult
result url = execute_request client (request url) 30 5 100

echoed :
    (result "/echo").body ≡ "hi"
    × (result "/echo").error ≡ ""
    × (result "/echo").headers ≡ ("Via", "a") ∷ []
unfolding execute_request
echoed = (refl, refl, refl)

not_made : (result "/").error ≡ "create request: no such URL"
unfolding execute_request
not_made = refl
