-- ===== src/Base/Error.antt =====
-- The error codes that the modelled functions return, of the list in src/clib/pio.h.
pub data Error : Type 0 where
  ebadid einval ebadtype enotvar enomem eio ebadiotype ebadrearr eperm : Error

-- A call returns PIO_NOERR and its results, or an error code.
pub data Result {ℓ} (A : Type ℓ) : Type ℓ where
  ok : A → Result A
  err : Error → Result A
