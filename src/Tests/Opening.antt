-- ===== src/Tests/Opening.antt =====
-- Tests of fs/open.c and fs/fcntl.c, on the descriptors of task 0.
use hios.Base.{ℕ, ◌≤◌, ◌<◌, ◌≡◌, ◌≢◌, refl, ◌⊎◌, arith, ◌==◌, if◌then◌else◌, Option, none, some}
use hios.Run.{ok}
use hios.Errno.{ret, fail, ebadf, einval, emfile}
use hios.System.{Files, nr_open}
use hios.Files.{dupfd, close_fd}
use hios.Files.Refs.{living, refs}
use hios.Files.Counted.{IsCounted, dupfd-IsCounted, close_fd-IsCounted}
use hios.Tests.Forking.{only_task_0, files, system-IsCounted}

dupfd-IsCounted_example :
    ((dupfd 0 1 0 files ≡ (fail ebadf, files)) × ((nr_open ≤ 1) ⊎ (files.filp 0 1 ≡ none)))
    ⊎ ((dupfd 0 1 0 files ≡ (fail einval, files)) × (nr_open ≤ 0))
    ⊎ ((dupfd 0 1 0 files ≡ (fail emfile, files))
        × ((d : ℕ) → 0 ≤ d → d < nr_open → files.filp 0 d ≢ none))
    ⊎ ((new : ℕ) × (t' : Files) × (dupfd 0 1 0 files ≡ (ret new, t'))
        × (0 ≤ new)
        × (new < nr_open)
        × ((d : ℕ) → 0 ≤ d → d < new → files.filp 0 d ≢ none)
        × (files.filp 0 new ≡ none)
        × (t'.filp 0 new ≡ files.filp 0 1)
        × IsCounted only_task_0 t')
dupfd-IsCounted_example =
    dupfd-IsCounted only_task_0 files 0 system-IsCounted (omega arith) refl 1 0

close_fd-IsCounted_example :
    ((t' : Files) × (close_fd 0 1 files ≡ ok (fail einval) t')
      × ((nr_open ≤ 1) ⊎ (files.filp 0 1 ≡ none))
      × (t'.filp ≡ files.filp)
      × (t'.file_table ≡ files.file_table))
    ⊎ ((f : ℕ) × (t' : Files) × (last : Option ℕ) × (close_fd 0 1 files ≡ ok (ret last) t')
        × (files.filp 0 1 ≡ some f)
        × (t'.filp 0 1 ≡ none)
        × (last ≡ (
            if refs (living only_task_0) files.filp f 64 == 1
            then some (files.file_table f).f_inode
            else none))
        × IsCounted only_task_0 t')
close_fd-IsCounted_example =
    close_fd-IsCounted only_task_0 files 0 system-IsCounted (omega arith) refl 1
