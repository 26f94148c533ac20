-- ===== src/Broker/Json.antt =====
-- The values of the broker's replies. A float of `time.time()` is a number of some unit of time.
use renesas_ra8m1_provisioni.Prelude.{ℕ, String, Bool, true, false, if◌then◌else◌, str_eq}
use renesas_ra8m1_provisioni.Broker.Text.{ℤ}

mutual
  pub data Json : Type 0 where
    null : Json
    bool : Bool → Json
    num : ℤ → Json
    time : ℕ → Json
    str : String → Json
    arr : Items → Json
    obj : Fields → Json

  pub data Items : Type 0 where
    nil : Items
    cons : Json → Items → Items

  pub data Fields : Type 0 where
    end : Fields
    field : String → Json → Fields → Fields

-- `d.get(k)`: a missing key gives `None`, as `null` does.
unfoldable pub get : String → Fields → Json
get k end = Json.null
get k (field j v fs) = if str_eq j k then v else get k fs

-- `k in d`
unfoldable pub has : String → Fields → Bool
has k end = false
has k (field j v fs) = if str_eq j k then true else has k fs
