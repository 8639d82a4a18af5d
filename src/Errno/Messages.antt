-- ===== src/Errno/Messages.antt =====
-- The messages of merry/merry_errno.c against the meanings of the error numbers.
use Prim.Native.String.{String}
use merry_v.Common.{◌≡◌, refl}
use merry_v.Errno.{
  HostError, eacces, eexist, efault, eintr, einval, eio, eisdir, emfile, enametoolong, enfile,
  enodev, enoent, enomem, enospc, enotdir, enxio, eoverflow, erofs, etimedout, econnrefused,
  ehostunreach, eaddrinuse, eaddrnotavail, eafnosupport, enotconn, econnreset, epipe, ebadf, eloop,
  enotempty, eperm, eshutdown, other, update_errno, interpret_errno,
}

-- What the comments of merry/tools/merry_errno.h say of the numbers, by the name of the error, and the
-- full stop that ends a message.
abbrev pub meaning : HostError → String
meaning eacces = "Permission denied."
meaning eexist = "File exists."
meaning efault = "Bad address."
meaning eintr = "Interrupted function call."
meaning einval = "Invalid argument."
meaning eio = "Input/output error."
meaning eisdir = "Is a directory."
meaning emfile = "Too many open files."
meaning enametoolong = "File name too long."
meaning enfile = "Too many open files in system."
meaning enodev = "No such device."
meaning enoent = "No such file or directory."
meaning enomem = "Not enough space."
meaning enospc = "No space left on device."
meaning enotdir = "Not a directory."
meaning enxio = "No such device or address."
meaning eoverflow = "Value too large to be stored in data type."
meaning erofs = "Read-only file system."
meaning etimedout = "Connection timed out."
meaning econnrefused = "Connection refused."
meaning ehostunreach = "No route to host."
meaning eaddrinuse = "Address already in use."
meaning eaddrnotavail = "Address not available."
meaning eafnosupport = "Address family not supported."
meaning enotconn = "Socket is not connected."
meaning econnreset = "Connection reset."
meaning epipe = "Broken pipe."
meaning ebadf = "Bad file descriptor."
meaning eloop = "Too many levels of symbolic links."
meaning enotempty = "Directory not empty."
meaning eperm = "Operation not permitted."
meaning eshutdown = "Cannot send after transport endpoint shutdown."
meaning (other number) = "Unknown error."

-- After an update from the host's error, the message printed is the meaning of that error, "Unknown
-- error." if it has no name here, and the error number is then the one of "permission denied".
pub interpret_errno-update_errno :
    (e : HostError)
    → ((interpret_errno (update_errno e)).0 ≡ meaning e)
      × ((interpret_errno (update_errno e)).1 ≡ update_errno eacces)
unfolding interpret_errno update_errno
interpret_errno-update_errno eacces = (refl, refl)
interpret_errno-update_errno eexist = (refl, refl)
interpret_errno-update_errno efault = (refl, refl)
interpret_errno-update_errno eintr = (refl, refl)
interpret_errno-update_errno einval = (refl, refl)
interpret_errno-update_errno eio = (refl, refl)
interpret_errno-update_errno eisdir = (refl, refl)
interpret_errno-update_errno emfile = (refl, refl)
interpret_errno-update_errno enametoolong = (refl, refl)
interpret_errno-update_errno enfile = (refl, refl)
interpret_errno-update_errno enodev = (refl, refl)
interpret_errno-update_errno enoent = (refl, refl)
interpret_errno-update_errno enomem = (refl, refl)
interpret_errno-update_errno enospc = (refl, refl)
interpret_errno-update_errno enotdir = (refl, refl)
interpret_errno-update_errno enxio = (refl, refl)
interpret_errno-update_errno eoverflow = (refl, refl)
interpret_errno-update_errno erofs = (refl, refl)
interpret_errno-update_errno etimedout = (refl, refl)
interpret_errno-update_errno econnrefused = (refl, refl)
interpret_errno-update_errno ehostunreach = (refl, refl)
interpret_errno-update_errno eaddrinuse = (refl, refl)
interpret_errno-update_errno eaddrnotavail = (refl, refl)
interpret_errno-update_errno eafnosupport = (refl, refl)
interpret_errno-update_errno enotconn = (refl, refl)
interpret_errno-update_errno econnreset = (refl, refl)
interpret_errno-update_errno epipe = (refl, refl)
interpret_errno-update_errno ebadf = (refl, refl)
interpret_errno-update_errno eloop = (refl, refl)
interpret_errno-update_errno enotempty = (refl, refl)
interpret_errno-update_errno eperm = (refl, refl)
interpret_errno-update_errno eshutdown = (refl, refl)
interpret_errno-update_errno (other number) = (refl, refl)
