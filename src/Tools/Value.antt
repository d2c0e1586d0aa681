-- ===== src/Tools/Value.antt =====
-- What `json.loads` yields. A number is kept as its text; the keys of a `dict` come in order.
use tinker_box.Base.{Bool, Option, none, some, ite, Text, text_dec}

mutual
  pub data Value : Type 0 where
    null : Value
    bool : Bool → Value
    num : Text → Value
    str : Text → Value
    arr : Items → Value
    obj : Fields → Value

  pub data Items : Type 0 where
    nil : Items
    cons : Value → Items → Items

  pub data Fields : Type 0 where
    end : Fields
    field : Text → Value → Fields → Fields

-- `d.get(key)`; `json.loads` keeps no key twice
unfoldable pub field_of : Text → Fields → Option Value
unfolding text_dec
field_of k end = none
field_of k (field j v fs) = ite (text_dec j k) (some v) (field_of k fs)
