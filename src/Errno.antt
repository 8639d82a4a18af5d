-- ===== src/Errno.antt =====
-- The error numbers of merry/merry_errno.c and merry/tools/merry_errno.h: the host's error numbers,
-- the machine's own, and their messages. Nothing else in the sources calls these functions.
pub mod Messages
mod Tests
use Prim.Native.String.{String}
use merry_v.Common.{ℕ, List, [], ◌∷◌, get_or, word_max}

-- The values of `errno` that `merry_update_errno` has a case for, by their names in <errno.h>, and the
-- others.
pub data HostError : Type 0 where
  eacces eexist efault eintr einval eio eisdir emfile enametoolong enfile enodev enoent : HostError
  enomem enospc enotdir enxio eoverflow erofs etimedout econnrefused ehostunreach eaddrinuse :
      HostError
  eaddrnotavail eafnosupport enotconn econnreset epipe ebadf eloop enotempty eperm eshutdown :
      HostError
  other : ℕ → HostError

-- `merry_update_errno`, with the numbers MERRY_EACCES to MERRY_ESHUTDOWN; the default is -1 as a
-- word.
unfoldable pub update_errno : HostError → ℕ
update_errno eacces = 0
update_errno eexist = 1
update_errno efault = 2
update_errno eintr = 3
update_errno einval = 4
update_errno eio = 5
update_errno eisdir = 6
update_errno emfile = 7
update_errno enametoolong = 8
update_errno enfile = 9
update_errno enodev = 10
update_errno enoent = 11
update_errno enomem = 12
update_errno enospc = 13
update_errno enotdir = 14
update_errno enxio = 15
update_errno eoverflow = 16
update_errno erofs = 17
update_errno etimedout = 18
update_errno econnrefused = 19
update_errno ehostunreach = 20
update_errno eaddrinuse = 21
update_errno eaddrnotavail = 22
update_errno eafnosupport = 23
update_errno enotconn = 24
update_errno econnreset = 25
update_errno epipe = 26
update_errno ebadf = 27
update_errno eloop = 28
update_errno enotempty = 29
update_errno eperm = 30
update_errno eshutdown = 31
update_errno (other number) = word_max

-- `merry_get_errno`: what it returns, and what it leaves in `merrno`.
unfoldable pub get_errno : ℕ → ℕ × ℕ
get_errno merrno = (merrno, 0)

-- The messages of the switch in `merry_interpret_errno`; the place in the list is the number.
abbrev pub messages : List String
messages =
    "Permission denied." ∷ "File exists." ∷ "Bad address." ∷ "Interrupted function call."
    ∷ "Invalid argument." ∷ "Input/output error." ∷ "Is a directory." ∷ "Too many open files."
    ∷ "File name too long." ∷ "Too many open files in system." ∷ "No such device."
    ∷ "No such file or directory." ∷ "Not enough space." ∷ "No space left on device."
    ∷ "Not a directory." ∷ "No such device or address."
    ∷ "Value too large to be stored in data type." ∷ "Read-only file system."
    ∷ "Connection timed out." ∷ "Connection refused." ∷ "No route to host."
    ∷ "Address already in use." ∷ "Address not available." ∷ "Address family not supported."
    ∷ "Socket is not connected." ∷ "Connection reset." ∷ "Broken pipe." ∷ "Bad file descriptor."
    ∷ "Too many levels of symbolic links." ∷ "Directory not empty." ∷ "Operation not permitted."
    ∷ "Cannot send after transport endpoint shutdown." ∷ []

-- `merry_interpret_errno`: what it prints, and what it leaves in `merrno`.
unfoldable pub interpret_errno : ℕ → String × ℕ
interpret_errno merrno = (get_or messages merrno "Unknown error.", 0)
