-- ===== src/Redis/Objects.antt =====
-- The objects of Redis and the commands on them, as the server's documentation gives them. A value
-- is kept in the form in which the code wrote it: go-redis prints a number or a flag as text, and
-- the code reads it back as a number or a flag.
use Prim.Native.Nat.{Ordering}
use Prim.Native.String.{compare}
use relayra.Prelude.{
  ℕ, String, Bool, true, false, ◌&&◌, ◌||◌, Option, none, some, List, [], ◌∷◌, ◌++◌, ℤ, ltb, ◌==◌,
  ◌==ₛ◌, if◌then◌else◌,
}
use relayra.Models.{RequestStatus, DeliveryStatus, ResultStatus, WsType}
use relayra.Redis.Keys.{Key, Field, field_eq}

pub data Value : Type 0 where
  text : String → Value
  number : ℕ → Value
  integer : ℤ → Value
  flag : Bool → Value
  bytes : List ℕ → Value
  texts : List String → Value
  request_status : RequestStatus → Value
  delivery : DeliveryStatus → Value
  webhook : ResultStatus → Value
  ws_type : WsType → Value

-- A member of a set, of a list or of a sorted set.
pub data Member : Type 0 where
  named : String → Member
  numbered : ℕ → Member

abbrev pub member_eq : Member → Member → Bool
member_eq (named a) (named b) = a ==ₛ b
member_eq (numbered a) (numbered b) = a == b
member_eq _ _ = false

abbrev pub Hash : Type 0
Hash = Field → Option Value

pub data Object : Type 0 where
  absent : Object
  hash : Hash → Object
  list : List Member → Object
  set : List Member → Object
  sorted_set : List (ℕ × Member) → Object
  value : Value → Object

abbrev pub fields : Object → Hash
fields (hash h) = h
fields _ = λ _. none

abbrev pub exists : Object → Bool
exists absent = false
exists _ = true

abbrev pub list_of : Object → List Member
list_of (list xs) = xs
list_of _ = []

abbrev pub set_of : Object → List Member
set_of (set xs) = xs
set_of _ = []

abbrev pub ranked : Object → List (ℕ × Member)
ranked (sorted_set xs) = xs
ranked _ = []

abbrev pub value_of : Object → Option Value
value_of (value v) = some v
value_of _ = none

abbrev pub assign : Hash → List (Field × Value) → Hash
assign h [] = h
assign h ((f, v) ∷ l) = assign (λ g. if field_eq f g then some v else h g) l

unfoldable pub without : Member → List Member → List Member
without m [] = []
without m (x ∷ xs) = let rest = without m xs in if member_eq m x then rest else x ∷ rest

unfoldable pub has : Member → List Member → Bool
has m [] = false
has m (x ∷ xs) = member_eq m x || has m xs

unfoldable pub unrank : Member → List (ℕ × Member) → List (ℕ × Member)
unrank m [] = []
unrank m ((s, x) ∷ xs) = let rest = unrank m xs in if member_eq m x then rest else (s, x) ∷ rest

-- members of one score stand in the order of their texts
abbrev before : Member → Member → Bool
before (named a) (named b) = elim (compare a b) [ Ordering.lt ↦ true | _ ↦ false ]
before _ _ = false

unfoldable pub rank : ℕ → Member → List (ℕ × Member) → List (ℕ × Member)
rank s m [] = (s, m) ∷ []
rank s m ((t, x) ∷ xs) =
    let rest = rank s m xs in
    if ltb s t || (s == t && before m x) then (s, m) ∷ (t, x) ∷ xs else (t, x) ∷ rest

pub data Command : Type 0 where
  hset : Key → List (Field × Value) → Command
  del : Key → Command
  rpush : Key → Member → Command
  lrem : Key → Member → Command  -- with count 0: every occurrence
  sadd : Key → Member → Command
  srem : Key → Member → Command
  zadd : Key → ℕ → Member → Command
  zrem : Key → Member → Command
  set_value : Key → Value → Command
  expire : Key → ℕ → Command  -- sets a time to live, and leaves the object

abbrev pub target : Command → Key
target (hset k _) = k
target (del k) = k
target (rpush k _) = k
target (lrem k _) = k
target (sadd k _) = k
target (srem k _) = k
target (zadd k _ _) = k
target (zrem k _) = k
target (set_value k _) = k
target (expire k _) = k

abbrev pub effect : Command → Object → Object
effect (hset _ fs) o = hash (assign (fields o) fs)
effect (del _) o = absent
effect (rpush _ m) o = list (list_of o ++ m ∷ [])
effect (lrem _ m) o = list (without m (list_of o))
effect (sadd _ m) o = set (if has m (set_of o) then set_of o else set_of o ++ m ∷ [])
effect (srem _ m) o = set (without m (set_of o))
effect (zadd _ s m) o = sorted_set (rank s m (unrank m (ranked o)))
effect (zrem _ m) o = sorted_set (unrank m (ranked o))
effect (set_value _ v) o = value v
effect (expire _ _) o = o
