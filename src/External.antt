-- ===== src/External.antt =====
-- What the program uses of code that is not in the repository: JSON values (serde_json) and floats.
-- Both are parameters of the model; `V` is the type of a JSON value and `F` that of `f64`.
use llm_ctl.Base.{ℕ, String, Option, Bool, List}
use llm_ctl.Base.Int.{ℤ}
use llm_ctl.Base.Text.{Text}

pub record Json (V F : Type 0) : Type 0 where
  pub get : V → String → Option V
  pub get_index : V → ℕ → Option V
  pub as_str : V → Option Text
  pub as_bool : V → Option Bool
  pub as_i64 : V → Option ℤ
  pub as_f64 : V → Option F
  pub as_u64 : V → Option ℕ
  pub as_array : V → Option (List V)
  pub from_slice : List ℕ → Option V
  pub slice_error : List ℕ → Text  -- the error's text, where `from_slice` fails
  pub from_str : Text → Option V

pub record Floats (F : Type 0) : Type 0 where
  pub zero : F
  pub add : F → F → F
  pub of_i64 : ℤ → F
  pub mul : F → F → F
  pub div : F → F → F
