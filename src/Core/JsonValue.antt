-- ===== src/Core/JsonValue.antt =====
-- JSON values, as `JSON.parse` gives them: an object has its members in some order.
use fiber_paid_http.Prelude.{Text, Bool}

mutual
  pub data Json : Type 0 where
    null : Json
    boolean : Bool → Json
    number : Text → Json
    string : Text → Json
    array : Items → Json
    object : Members → Json

  pub data Items : Type 0 where
    nil : Items
    item : Json → Items → Items

  pub data Members : Type 0 where
    end : Members
    member : Text → Json → Members → Members
