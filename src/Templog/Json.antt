-- ===== src/Templog/Json.antt =====
-- The values that JSON.parse returns, as far as the tools tell them apart. A number is a whole
-- number or `fraction`, which stands for every other.
use semantos_edge.Base.{Bool, if◌then◌else◌}
use semantos_edge.Base.Int.{ℤ}
use semantos_edge.Base.Map.{Str, str_eq}

mutual
  pub data Json : Type 0 where
    null : Json
    bool : Bool → Json
    num : ℤ → Json
    fraction : Json
    str : Str → Json
    arr : Items → Json
    obj : Fields → Json
    undefined : Json

  pub data Items : Type 0 where
    nil : Items
    cons : Json → Items → Items

  pub data Fields : Type 0 where
    end : Fields
    field : Str → Json → Fields → Fields

-- r.k
unfoldable pub member : Str → Fields → Json
member k end = undefined
member k (field j v r) = if str_eq j k then v else member k r
