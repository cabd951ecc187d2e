-- ===== src/Plugin/Floats.antt =====
-- The machine's IEEE arithmetic, which the plug-in uses and does not implement.
use lat_sofaudio.Prelude.{ℕ, Bool, String}

-- Float32 and Float64 with the operations that the code calls. `literal32 "0.98822f"` is what the
-- compiler makes of that literal; `to_u64` is the cast (UInt64), `of_u64` the cast from it.
pub record Floats : Type 1 where
  pub F32 : Type 0
  pub literal32 : String → F32
  pub add32 : F32 → F32 → F32
  pub sub32 : F32 → F32 → F32
  pub mul32 : F32 → F32 → F32
  pub div32 : F32 → F32 → F32
  pub sqrt32 : F32 → F32
  pub lt32 : F32 → F32 → Bool
  pub eq32 : F32 → F32 → Bool
  -- (Float32) of an int32_t, given by its bit pattern
  pub of_s32 : ℕ → F32
  -- (int16_t) of a Float32, as a bit pattern
  pub to_s16 : F32 → ℕ
  pub F64 : Type 0
  pub literal64 : String → F64
  pub add64 : F64 → F64 → F64
  pub sub64 : F64 → F64 → F64
  pub mul64 : F64 → F64 → F64
  pub div64 : F64 → F64 → F64
  pub eq64 : F64 → F64 → Bool
  -- the widening from Float32
  pub of_f32 : F32 → F64
  pub of_u64 : ℕ → F64
  pub to_u64 : F64 → ℕ
