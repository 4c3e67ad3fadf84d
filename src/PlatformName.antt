-- ===== src/PlatformName.antt =====
-- The name of a platform object, in platform/common: the constructors of IThread, IMutex, ISemaphore and
-- IMessageQueue copy it in the same way. A name is the list of its characters without the final NUL.
pub mod CString
use enocean_core.Base.{ℕ, ◌-◌, min, List, ◌++◌, length, take, drop, set, replicate}

abbrev pub name_size : ℕ
name_size = 32

-- `copy_n` over the zeros of the array, and a NUL behind it.
unfoldable pub copy_name : List ℕ → List ℕ
copy_name name =
    let copy_len = min (length name) (name_size - 1) in
    set (take copy_len name ++ drop copy_len (replicate name_size 0)) copy_len 0
