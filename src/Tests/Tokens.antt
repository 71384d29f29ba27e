-- ===== src/Tests/Tokens.antt =====
-- The theorem of Store/Tokens at a concrete input.
use relayra.Prelude.{ℕ, String, ◌≡◌, ◌≢◌, refl, Option, none, some, List, [], ◌∷◌}
use relayra.Errors.{ok}
use relayra.Models.{ApiToken, PairingToken}
use relayra.Codec.{TokenCodec}
use relayra.Redis.Objects.{text, bytes, set_value, value_of}
use relayra.Redis.Actions.{State, Outcome, cut, calm, run_all, under, ◌>>=◌}
use relayra.Store.Tokens.{validate_api_token, delete_api_token, find_api_token, token_key, hash_key}
use relayra.Store.Tokens.Revoked.{Call, validate, delete, run_calls, deleted-refused}
use relayra.Tests.Memory.{Memory, empty, memory}
use relayra.Tests.Serial.{Serial, decoded, get-one, both, via, number, string}

Written : Type 0
Written = String × (String × (String × (ℕ × (ℕ × ℕ))))

written : Serial Written
unfolding Written
written = both string (both string (both string (both number (both number number))))

unhashed : Option Written → Option ApiToken
unfolding Written
unhashed none = none
unhashed (some t) = some (record {
  id = t.0;
  name = t.1.0;
  token = t.1.1.0;
  token_hash = "";
  created_at = t.1.1.1.0;
  last_used = t.1.1.1.1.0;
  usage_count = t.1.1.1.1.1;
})

fields_of : ApiToken → Written
unfolding Written
fields_of t = (t.id, (t.name, (t.token, (t.created_at, (t.last_used, t.usage_count)))))

unhashed_lem :
    (t : ApiToken)
    → unhashed (decoded (written.get (written.put (fields_of t) [])))
      ≡ some (record t { token_hash = "" })
unfolding unhashed fields_of Written
unhashed_lem t = rw (get-one written (fields_of t))

pairing : Serial PairingToken
pairing =
    via (λ t. (t.listener_addr, (t.listener_id, (t.listener_name, (t.secret, t.expires_at)))))
      (λ t. record {
        listener_addr = t.0;
        listener_id = t.1.0;
        listener_name = t.1.1.0;
        secret = t.1.1.1.0;
        expires_at = t.1.1.1.1;
      })
      (λ t. refl) (both string (both string (both string (both string number))))

instance pub token_codec : TokenCodec
token_codec = record {
  json_api_token = λ t. written.put (fields_of t) [];
  parse_api_token = λ b. unhashed (decoded (written.get b));
  parse-json_api_token = unhashed_lem;
  json_pairing_token = λ t. pairing.put t [];
  parse_pairing_token = λ b. decoded (pairing.get b);
  parse-json_pairing_token = get-one pairing;
}

abbrev pub a_token : ApiToken
a_token = record {
  id = "t1";
  name = "ci";
  token = "";
  token_hash = "h1";
  created_at = 5;
  last_used = 0;
  usage_count = 0;
}

abbrev pub one_token : State Memory
one_token = calm (
    run_all memory.write
      (set_value (token_key "t1") (bytes (token_codec.json_api_token a_token))
        ∷ set_value (hash_key "h1") (text "t1")
        ∷ [])
      empty)

deleted : (delete_api_token "t1" one_token).0 ≡ ok tt
unfolding delete_api_token ◌>>=◌
deleted = rw (token_codec.parse-json_api_token a_token)

-- the key of the hash is not deleted; the second deletion fails
abbrev calls : List (Call "t1" × List Outcome)
calls = (validate "h1" 200, []) ∷ (delete "t1", cut 0 ∷ []) ∷ []

leads :
    value_of ((run_calls "t1" calls (delete_api_token "t1" one_token).1).1.db (hash_key "h1"))
    ≡ some (text "t1")
unfolding delete_api_token validate_api_token find_api_token ◌>>=◌
leads = rw (token_codec.parse-json_api_token a_token)

deleted-refused_example :
    (under []
      (validate_api_token "h1" 300)
      (run_calls "t1" calls (delete_api_token "t1" one_token).1).1).0
    ≢ ok a_token
deleted-refused_example = deleted-refused "t1" calls "h1" 300 [] one_token a_token deleted leads
