-- ===== src/Base/Errors.antt =====
-- The error codes that the driver's functions return, and results that may be one.

-- `-Exxx`, and `hw`: a code that a call outside the driver returned, passed on.
pub data Errno : Type 0 where
  einval enomem enospc eacces enodata enoent enodev eperm efault : Errno

-- `int r`: zero, or an error.
pub data Status : Type 0 where
  ok : Status
  err : Errno → Status

pub Errno-discrete : Discrete Errno
Errno-discrete = hlevel
