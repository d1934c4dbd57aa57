-- ===== src/Errno.antt =====
-- include/errno.h: the error numbers that the modelled calls return, negated.
pub data Errno : Type 0 where
  eperm enoent eintr ebadf echild eacces eexist eisdir einval emfile enospc error : Errno

-- A result of type `int`: a number, or minus an error number.
pub data Ret (A : Type 0) : Type 0 where
  ret : A → Ret A
  fail : Errno → Ret A
