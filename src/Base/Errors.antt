-- ===== src/Base/Errors.antt =====
-- A value or an error, as a Go function returns them.
use Prim.Native.String.{String}

pub data Result (A : Type 0) : Type 0 where
  ok : A → Result A
  error : String → Result A
