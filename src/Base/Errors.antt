-- ===== src/Base/Errors.antt =====
-- What a C++ exception carries: `Trap` (interpreter.cpp), `std::runtime_error`,
-- `std::out_of_range`. A message keeps its fixed part; names and numbers spliced into it are left out.
use Prim.Native.String.{String}

pub data Error : Type 0 where
  trap : String → Error
  runtime_error : String → Error
  out_of_range : String → Error
  -- no C++ exception: a loop of the model used up its fuel
  out_of_fuel : Error

pub data Result {ℓ} (A : Type ℓ) : Type ℓ where
  ok : A → Result A
  err : Error → Result A
