-- ===== src/Json.antt =====
-- The values of `response.json()`. A number with a fraction is given by the decimal that Python
-- prints for it.
use portfolio_copilot.Prelude.Dict.{Dict}
use portfolio_copilot.Prelude.{Option, Bool, none, some, [], ◌∷◌, List, String}
use portfolio_copilot.Prelude.Int.{ℤ}
use portfolio_copilot.Decimal.Number.{Decimal}

mutual
  pub data Json : Type 0 where
    null : Json
    boolean : Bool → Json
    integer : ℤ → Json
    float : Decimal → Json
    str : String → Json
    array : Items → Json
    object : Fields → Json

  pub data Items : Type 0 where
    no_items : Items
    item : Json → Items → Items

  pub data Fields : Type 0 where
    no_fields : Fields
    field : String → Json → Fields → Fields

abbrev pub items : Items → List Json
items no_items = []
items (item v vs) = v ∷ items vs

-- `JsonRecord`
abbrev pub fields : Fields → Dict Json
fields no_fields = []
fields (field k v fs) = (k, v) ∷ fields fs

-- `record.get(name)`, where a JSON null is `None`, as a missing key is.
abbrev pub not_null : Option Json → Option Json
not_null none = none
not_null (some null) = none
not_null (some v) = some v

abbrev pub array_of : Option Json → Option Items
array_of (some (array vs)) = some vs
array_of v = none
