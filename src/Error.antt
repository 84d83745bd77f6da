-- ===== src/Error.antt =====
-- rtError.h and rtError.c: an `rtError` is a `uint32_t`, kept as a number.
pub mod Texts
use rtmessage.Prelude.{ℕ, bit_or, bit_and, ◌*◌, ◌/◌, ◌^◌, ◌==◌, if◌then◌else◌}

-- `RT_ERROR` and `RT_FAIL` are the same number.
abbrev pub rt_ok : ℕ
rt_ok = 0

abbrev pub rt_error : ℕ
rt_error = 1

abbrev pub rt_fail : ℕ
rt_fail = 1

abbrev pub rt_error_invalid_arg : ℕ
rt_error_invalid_arg = 3

abbrev pub rt_error_timeout : ℕ
rt_error_timeout = 1000

abbrev pub rt_error_duplicate_entry : ℕ
rt_error_duplicate_entry = 1001

abbrev pub rt_error_stream_closed : ℕ
rt_error_stream_closed = 1007

abbrev pub rt_error_class_syserror : ℕ
rt_error_class_syserror = 0x8000

abbrev pub rt_error_class_builtin : ℕ
rt_error_class_builtin = 0

-- RT_ERROR_CLASS and RT_ERROR_CODE
unfoldable pub error_class : ℕ → ℕ
error_class e = bit_and (e / 2 ^ 16) 0xffff

unfoldable pub error_code : ℕ → ℕ
error_code e = bit_and e 0xffff

-- rtErrorFromErrno
unfoldable pub error_from_errno : ℕ → ℕ
error_from_errno err = if err == 0 then rt_ok else bit_or err (rt_error_class_syserror * 2 ^ 16)

-- ENOMEM and EBADF as the Linux ABI numbers them
abbrev pub enomem : ℕ
enomem = 12

abbrev pub ebadf : ℕ
ebadf = 9
