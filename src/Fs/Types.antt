-- ===== src/Fs/Types.antt =====
-- src/fs.rs: the data of the overlay, and the system that it runs on.
use airgap.Prelude.{ℕ, Bool, Option, List, Bytes, Result}
use airgap.Std.FilePath.{FilePath}
use airgap.Redact.{HandlerKind}
use airgap.Redact.Dispatch.{Crates}

-- The errors of a reply. `os_error` is a number that the kernel gave; `unfinished` is no error of
-- the program: a loop of the model whose bound is met gives it. `panicked` stands for a panic, which
-- gives no reply.
pub data Errno : Type 0 where
  enoent eacces eio erofs ebadf unfinished panicked : Errno
  os_error : ℕ → Errno

-- What `read` should serve for a file.
pub data View : Type 0 where
  passthrough failed : View
  redacted : HandlerKind → Bytes → View
  key : Bytes → View

-- An open file handle.
pub data Handle (Fd : Type 0) : Type 0 where
  file : Fd → Handle Fd
  redacted : HandlerKind → Fd → Bytes → Option Bytes → Handle Fd
  key : Bytes → Handle Fd
  failed : Handle Fd

-- What the wrapped program is trying to do to a file.
pub data Access : Type 0 where
  read write create : Access

-- The flags of an open. `O_CLOEXEC`, which every open of the program has, is left out.
pub data AccessMode : Type 0 where
  read_only write_only read_write : AccessMode

pub record OFlag : Type 0 where
  pub mode : AccessMode
  pub append : Bool
  pub trunc : Bool
  pub creat : Bool

-- The kernel's file calls, relative to the captured directory, the policy hook (`DirAccess`), and
-- the parsers of other crates. `World` is the state of the files, `Fd` an open descriptor, `Gate`
-- the state of the hook. `content` is what a descriptor's file holds.
pub record System : Type 1 where
  pub World : Type 0
  pub Fd : Type 0
  pub Gate : Type 0
  pub content : World → Fd → Bytes
  pub openat : World → FilePath → OFlag → ℕ → Result Errno Fd × World
  pub pread : World → Fd → ℕ → ℕ → Result Errno Bytes
  pub pwrite : World → Fd → Bytes → ℕ → Result Errno ℕ × World
  pub ftruncate : World → Fd → ℕ → Result Errno (Unit {0}) × World
  pub readlinkat : World → FilePath → Result Errno Bytes
  pub allow : Gate → FilePath → Access → Bool × Gate
  pub crates : Crates

-- A signed number of 64 bits: itself, or what it lies below 0.
pub data Int64 : Type 0 where
  nonneg negative : ℕ → Int64

-- `struct stat`.
pub record Stat : Type 0 where
  pub st_mode : ℕ
  pub st_size : ℕ
  pub st_blocks : ℕ
  pub st_atime : Int64
  pub st_atime_nsec : Int64
  pub st_mtime : Int64
  pub st_mtime_nsec : Int64
  pub st_ctime : Int64
  pub st_ctime_nsec : Int64
  pub st_nlink : ℕ
  pub st_uid : ℕ
  pub st_gid : ℕ
  pub st_rdev : ℕ
  pub st_blksize : ℕ

-- The kernel's calls on names. `fstatat` takes whether it follows a symlink; the entries of a
-- directory come with their type, and an entry that cannot be read is missing.
pub record Tree (sys : System) : Type 1 where
  pub fstatat : sys.World → FilePath → Bool → Result Errno Stat
  pub entries : sys.World → FilePath → Result Errno (List (Option (Bytes × Option ℕ)))
  pub mkdirat : sys.World → FilePath → ℕ → Result Errno (Unit {0}) × sys.World
  pub unlinkat : sys.World → FilePath → Bool → Result Errno (Unit {0}) × sys.World
  pub renameat : sys.World → FilePath → FilePath → Result Errno (Unit {0}) × sys.World
  pub symlinkat : sys.World → Bytes → FilePath → Result Errno (Unit {0}) × sys.World
  pub linkat : sys.World → FilePath → FilePath → Result Errno (Unit {0}) × sys.World
