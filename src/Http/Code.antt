-- ===== src/Http/Code.antt =====
-- The failure codes of service/http/HttpClient.h, `enum Error`, which are the ERROR_* values of
-- IHttpService.
use binder.Prelude.{ℤ, pos, negsuc}

pub data Code : Type 0 where
  ok error_bad_url error_connect error_io error_http_status error_canceled error_write : Code
  error_too_large : Code

unfoldable pub code_value : Code → ℤ
code_value ok = pos 0
code_value error_bad_url = negsuc 0
code_value error_connect = negsuc 1
code_value error_io = negsuc 2
code_value error_http_status = negsuc 3
code_value error_canceled = negsuc 4
code_value error_write = negsuc 5
code_value error_too_large = negsuc 6
