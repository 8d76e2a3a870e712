-- ===== src/Error/Tests.antt =====
-- A test of the error numbers.
use nwin_os.Common.{◌≡◌, refl, ◌^◌, ◌-◌}
use nwin_os.Common.Int.{as_u64}
use nwin_os.Error.{to_errno, fs, elf, too_small}

short_file_is_einval : as_u64 (to_errno (fs (elf too_small))) ≡ 2 ^ 64 - 22
unfolding to_errno
short_file_is_einval = refl
