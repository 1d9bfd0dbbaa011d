-- ===== src/Domain/Json.antt =====
-- `serde_json::Value`, as far as crono takes it apart. A text is the list of its code points, a
-- number is kept as the text that `Number::to_string` prints, and an object is the list of its
-- members in the order of its map.
use crono.Prelude.{Bool, Text}

mutual
  pub data Value : Type 0 where
    null : Value
    bool : Bool → Value
    number : Text → Value
    string : Text → Value
    array : Values → Value
    object : Members → Value

  pub data Values : Type 0 where
    nil : Values
    cons : Value → Values → Values

  pub data Members : Type 0 where
    end : Members
    member : Text → Value → Members → Members
