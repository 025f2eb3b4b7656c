-- ===== src/Model.antt =====
-- src/model.rs: the payloads that clients send, and JSON objects.
use gateway_proxy.Prelude.{
  ℕ, Bool, Option, none, some, List, [], ◌∷◌, if◌then◌else◌, ◌≡◌, refl, arith,
}
use gateway_proxy.Text.{Text}
use gateway_proxy.Text.Words.{text_eq, text_eq_iff}

-- `OwnedValue`. A number is kept as its text.
mutual
  pub data Value : Type 0 where
    null : Value
    bool : Bool → Value
    number : Text → Value
    string : Text → Value
    array : Values → Value
    object : Members → Value

  pub data Values : Type 0 where
    no_values : Values
    value : Value → Values → Values

  pub data Members : Type 0 where
    no_members : Members
    member : Text → Value → Members → Members

abbrev pub values : List Value → Values
values [] = no_values
values (v ∷ vs) = value v (values vs)

abbrev pub members : List (Text × Value) → Members
members [] = no_members
members ((k, v) ∷ ms) = member k v (members ms)

-- A hash map, as the list of its entries.
abbrev pub Map : Type 0 → Type 0
Map V = List (Text × V)

abbrev pub JsonObject : Type 0
JsonObject = Map Value

module _ {V : Type 0} where
  unfoldable pub get : Map V → Text → Option V
  get [] k = none
  get ((j, v) ∷ m) k = if text_eq j k then some v else get m k

  unfoldable pub insert : Map V → Text → V → Map V
  insert [] k v = (k, v) ∷ []
  insert ((j, w) ∷ m) k v = if text_eq j k then (j, v) ∷ m else (j, w) ∷ insert m k v

  -- An insertion is seen under its key, and nowhere else.
  pub get-insert :
      (m : Map V) (k j : Text) (v : V)
      → get (insert m k v) j ≡ (if text_eq k j then some v else get m j)
  unfolding get insert
  get-insert [] k j v = refl
  get-insert ((i, w) ∷ m) k j v =
      ground (arith, text_eq_iff k j, text_eq_iff i k, text_eq_iff i j, get-insert m k j v)

pub record IdentifyInfo : Type 0 where
  pub compress : Option Bool
  pub shard : ℕ × ℕ
  pub token : Text

pub record Identify : Type 0 where
  pub d : IdentifyInfo

pub record ResumeInfo : Type 0 where
  pub session_id : Text
  pub seq : ℕ
  pub token : Text

pub record Resume : Type 0 where
  pub d : ResumeInfo

-- The READY payload of Discord.
pub record Ready : Type 0 where
  pub d : JsonObject
