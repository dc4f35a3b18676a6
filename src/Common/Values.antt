-- ===== src/Common/Values.antt =====
-- JSON values, as encoding/json decodes them into `interface{}`. A number is kept as its literal
-- (Go parses it to a float64); an object is the list of its fields.
use Prim.Native.String.{String}
use mathlib.Core.Bool.{Bool}
use mathlib.Core.Option.{Option, none, some}
use text.Mathlib.Text.{◌==◌}
use nmslite.Common.Tests.{if◌then◌else◌}

mutual
  pub data Json : Type 0 where
    null : Json
    bool : Bool → Json
    num : String → Json
    str : String → Json
    arr : Items → Json
    obj : Fields → Json

  pub data Items : Type 0 where
    nil : Items
    cons : Json → Items → Items

  pub data Fields : Type 0 where
    end : Fields
    field : String → Json → Fields → Fields

-- data[key]; the last field of a key counts, as in encoding/json.
unfoldable pub get_field : String → Fields → Option Json
get_field k end = none
get_field k (field j v fs) =
    let later = get_field k fs in
    elim later [ some w ↦ some w | none ↦ if j == k then some v else none ]
