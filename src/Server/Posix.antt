-- ===== src/Server/Posix.antt =====
-- The system calls of src/traghetto/server/FileServer.cpp: a handler is a program that makes calls and
-- goes on with their answers. The answers are not modelled: a theorem on a program holds for all of
-- them, so for every state of the file system and every other process that changes it meanwhile.
pub mod Every
use campiello.Common.{ℕ, Bool, Option, List, [], ◌∷◌}
use campiello.Common.Int.{ℤ}

-- The values of `errno` that the code tells apart.
pub data Errno : Type 0 where
  enoent eacces eperm erofs eloop enotdir eisdir enospc edquot : Errno
  other_errno : ℕ → Errno

-- -1 with an errno, or a result.
pub data Returned (A : Type 0) : Type 0 where
  failed : Errno → Returned A
  returned : A → Returned A

-- `struct stat`, with what S_ISDIR says of its mode.
pub record FileStat : Type 0 where
  pub is_dir : Bool
  pub mode : ℕ
  pub size : ℤ
  pub mtime : ℤ
  pub crtime : ℤ
  pub inode : ℤ

-- `attr_info`
pub record AttrInfo : Type 0 where
  pub type : ℕ
  pub size : ℤ

-- The flags of `open`: O_RDONLY, O_WRONLY or O_RDWR by the first two.
pub record OpenFlags : Type 0 where
  pub for_read : Bool
  pub for_write : Bool
  pub create : Bool
  pub cut : Bool
  pub no_follow : Bool

-- What the volume of the shared root offers to a query.
pub data Volume : Type 0 where
  no_root no_queries volume : Volume

-- What `fs_write_attr` returned, and `errno` after it.
pub record AttrWritten : Type 0 where
  pub count : Option ℕ
  pub errno : Errno

-- A directory is listed by one call: `opendir` or `fs_open_attr_dir`, with the names that its reads will
-- give. The calls on queries are those of BVolume, BQuery and BPath.
pub data Call : Type 0 where
  realpath : List ℕ → Call
  lstat : List ℕ → Call
  list_dir : List ℕ → Call
  open_path : List ℕ → OpenFlags → Call
  pread : ℕ → ℕ → ℤ → Call
  pwrite : ℕ → List ℕ → ℤ → Call
  close_fd : ℕ → Call
  make_dir : List ℕ → ℕ → Call
  remove_dir : List ℕ → Call
  unlink_path : List ℕ → Call
  rename_path : List ℕ → List ℕ → Call
  truncate_path : List ℕ → ℤ → Call
  attr_dir : List ℕ → Call
  stat_attr : ℕ → List ℕ → Call
  get_attr : ℕ → List ℕ → ℕ → ℕ → Call
  put_attr : ℕ → List ℕ → ℕ → List ℕ → Call
  query_volume : List ℕ → Call
  new_query : List ℕ → Call
  fetch_query : ℕ → Bool → Call
  delete_query : ℕ → Call
  ref_path : ℤ → ℤ → List ℕ → Call

abbrev pub Answer : Call → Type 0
Answer (realpath path) = Option (List ℕ)
Answer (lstat path) = Option FileStat
Answer (list_dir path) = Option (List (List ℕ))
Answer (open_path path flags) = Returned ℕ
Answer (pread fd length offset) = Option (List ℕ)
Answer (pwrite fd bytes offset) = Returned ℕ
Answer (close_fd fd) = Unit {0}
Answer (make_dir path mode) = Returned (Unit {0})
Answer (remove_dir path) = Returned (Unit {0})
Answer (unlink_path path) = Returned (Unit {0})
Answer (rename_path source target) = Returned (Unit {0})
Answer (truncate_path path size) = Returned (Unit {0})
Answer (attr_dir path) = Option (List (List ℕ))
Answer (stat_attr fd name) = Option AttrInfo
Answer (get_attr fd name type size) = Option (List ℕ)
Answer (put_attr fd name type value) = AttrWritten
Answer (query_volume root) = Volume
Answer (new_query predicate) = Option ℕ
Answer (fetch_query query live) = Option (List (Option (List ℕ)))
Answer (delete_query query) = Unit {0}
Answer (ref_path device directory name) = Option (List ℕ)

pub data Program (A : Type 0) : Type 0 where
  done : A → Program A
  call : (c : Call) → (Answer c → Program A) → Program A

infixl 5 ◌>>=◌
abbrev pub ◌>>=◌ : {A B : Type 0} → Program A → (A → Program B) → Program B
done a >>= f = f a
call c k >>= f = call c (λ o. k o >>= f)

-- A program met by calls that answer from a state.
unfoldable pub run : {A S : Type 0} → ((c : Call) → S → Answer c × S) → Program A → S → A × S
run system (done a) s = (a, s)
run system (call c k) s = let (o, t) = system c s in run system (k o) t

-- The calls that the program makes there, in order.
unfoldable pub calls : {A S : Type 0} → ((c : Call) → S → Answer c × S) → Program A → S → List Call
calls system (done a) s = []
calls system (call c k) s = let (o, t) = system c s in c ∷ calls system (k o) t
