-- ===== src/Redis/Keys.antt =====
-- The keys and the hash fields that internal/store writes. A key is one of the package's prefix
-- constants and what is appended to it, which is a name, or a name and a number.
use relayra.Prelude.{
  ℕ, String, ◌≡◌, Bool, true, false, ◌&&◌, ◌==◌, ◌==ₛ◌, arith, eq_iff, refl, List, [], ◌∷◌, some,
  subst, ap, get_elem?, Bool-cases, inl, inr,
}

-- One for each `key…` constant of internal/store.
pub data Space : Type 0 where
  request queue result pending_results pending_result sender_requests sender_request : Space
  chunk_receipts chunk_receipt chunk_cursor inbound_chunk : Space
  ws_state ws_outbox_index ws_outbox_msg : Space
  peer peers pairing listener_info api_token api_tokens api_token_hash : Space
  proxy_list proxy_status : Space

abbrev space_code : Space → ℕ
space_code request = 0
space_code queue = 1
space_code result = 2
space_code pending_results = 3
space_code pending_result = 4
space_code sender_requests = 5
space_code sender_request = 6
space_code chunk_receipts = 7
space_code chunk_receipt = 8
space_code chunk_cursor = 9
space_code inbound_chunk = 10
space_code ws_state = 11
space_code ws_outbox_index = 12
space_code ws_outbox_msg = 13
space_code peer = 14
space_code peers = 15
space_code pairing = 16
space_code listener_info = 17
space_code api_token = 18
space_code api_tokens = 19
space_code api_token_hash = 20
space_code proxy_list = 21
space_code proxy_status = 22

abbrev spaces : List Space
spaces =
    request ∷ queue ∷ result ∷ pending_results ∷ pending_result ∷ sender_requests ∷ sender_request
    ∷ chunk_receipts ∷ chunk_receipt ∷ chunk_cursor ∷ inbound_chunk ∷ ws_state ∷ ws_outbox_index
    ∷ ws_outbox_msg ∷ peer ∷ peers ∷ pairing ∷ listener_info ∷ api_token ∷ api_tokens
    ∷ api_token_hash ∷ proxy_list ∷ proxy_status ∷ []

spaces_lem : (s : Space) → get_elem? spaces (space_code s) ≡ some s
spaces_lem request = refl
spaces_lem queue = refl
spaces_lem result = refl
spaces_lem pending_results = refl
spaces_lem pending_result = refl
spaces_lem sender_requests = refl
spaces_lem sender_request = refl
spaces_lem chunk_receipts = refl
spaces_lem chunk_receipt = refl
spaces_lem chunk_cursor = refl
spaces_lem inbound_chunk = refl
spaces_lem ws_state = refl
spaces_lem ws_outbox_index = refl
spaces_lem ws_outbox_msg = refl
spaces_lem peer = refl
spaces_lem peers = refl
spaces_lem pairing = refl
spaces_lem listener_info = refl
spaces_lem api_token = refl
spaces_lem api_tokens = refl
spaces_lem api_token_hash = refl
spaces_lem proxy_list = refl
spaces_lem proxy_status = refl

space_code-injective : (s t : Space) → space_code s ≡ space_code t → s ≡ t
space_code-injective s t e =
    let found : get_elem? spaces (space_code t) ≡ some s =
      subst (λ n. get_elem? spaces n ≡ some s) e (spaces_lem s) in
    cc (spaces_lem t)

pub record Key : Type 0 where
  pub space : Space
  pub name : String
  pub number : ℕ

-- A prefix with a name behind it.
abbrev pub key : Space → String → Key
key s n = record { space = s; name = n; number = 0 }

-- A constant key.
abbrev pub the : Space → Key
the s = record { space = s; name = ""; number = 0 }

abbrev pub numbered_key : Space → String → ℕ → Key
numbered_key s n i = record { space = s; name = n; number = i }

abbrev pub key_eq : Key → Key → Bool
key_eq k j = space_code k.space == space_code j.space && (k.name ==ₛ j.name && k.number == j.number)

pub key_eq_refl : (k : Key) → key_eq k k ≡ true
key_eq_refl k = ground (arith, (eq_iff k.name k.name).1 refl)

-- The fields of the hashes.
pub data Field : Type 0 where
  id peer_id webhook_url status created_at payload async lease_until webhook_status : Field
  delivery_status updated_at : Field
  request_id next_index completed reset error kind total checksum total_size assembled : Field
  next_outbound_seq last_received_seq scope seq msg_type ref_id : Field
  name machine_id role address capabilities encryption_key registered_at last_seen : Field
  fail_count last_checked : Field

abbrev field_code : Field → ℕ
field_code id = 0
field_code peer_id = 1
field_code webhook_url = 2
field_code status = 3
field_code created_at = 4
field_code payload = 5
field_code async = 6
field_code lease_until = 7
field_code webhook_status = 8
field_code delivery_status = 9
field_code updated_at = 10
field_code request_id = 11
field_code next_index = 12
field_code completed = 13
field_code reset = 14
field_code error = 15
field_code kind = 16
field_code total = 17
field_code checksum = 18
field_code total_size = 19
field_code assembled = 20
field_code next_outbound_seq = 21
field_code last_received_seq = 22
field_code scope = 23
field_code seq = 24
field_code msg_type = 25
field_code ref_id = 26
field_code name = 27
field_code machine_id = 28
field_code role = 29
field_code address = 30
field_code capabilities = 31
field_code encryption_key = 32
field_code registered_at = 33
field_code last_seen = 34
field_code fail_count = 35
field_code last_checked = 36

abbrev pub field_eq : Field → Field → Bool
field_eq f g = field_code f == field_code g

-- keys of different kinds are different
pub key_eq-apart :
    (sort : Space → Bool) (k j : Key)
    → sort k.space ≡ true
    → sort j.space ≡ false
    → key_eq k j ≡ false
key_eq-apart sort k j in_kind outside = elim (Bool-cases (key_eq k j)) [
  | inr apart ↦ apart
  | inl same ↦
      let codes : space_code k.space ≡ space_code j.space = ground (arith, same) in
      let spaces_eq : k.space ≡ j.space = space_code-injective k.space j.space codes in
      absurd (cc (ap sort spaces_eq))
]
