-- ===== src/Base/Json.antt =====
-- What the program uses of `nlohmann::json`, a third-party library: an interface over an abstract
-- type of documents. `value` is `j.value(key, fallback)` at type string, which throws on a document
-- that is no object and on an entry of another type.
use Prim.Native.String.{String}
use mathlib.Core.List.{List}
use c_tests_runner.Base.Result.{Result}

pub record JsonApi (J : Type 0) : Type 0 where
  pub null : J
  pub value : J → String → String → Result String
  pub put : J → String → String → J
  pub object : List (String × String) → J
