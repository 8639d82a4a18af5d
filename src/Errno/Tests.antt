-- ===== src/Errno/Tests.antt =====
-- Concrete error numbers.
use merry_v.Common.{◌≡◌, refl}
use merry_v.Errno.{enoent, eacces, update_errno, get_errno}

-- Once it is read, the error number is that of "permission denied".
get_errno_twice : (get_errno (get_errno (update_errno enoent)).1).0 ≡ update_errno eacces
unfolding get_errno update_errno
get_errno_twice = refl
