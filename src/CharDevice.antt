-- ===== src/CharDevice.antt =====
-- The character device of Exercises/Exercise7: one message of at most 256 bytes, which is written
-- and read back. Memory is counted from the start of `message_buffer` on.
pub mod Laws
use k_rack.Common.{
  ℕ, zero, suc, ◌+◌, ◌-◌, ◌*◌, ◌/◌, ◌%◌, ◌^◌, ◌≤◌, ◌<◌, min, bit_and, ◌≡◌, refl, sym, ap, subst,
  ◌∙◌, ◌≢◌, ◌↔◌, ◌⊎◌, inl, inr, Bool, true, false, not, ◌&&◌, ◌||◌, Option, none, some, List, [],
  ◌∷◌, ◌++◌, arith, ltb, leb, ◌==◌, if◌then◌else◌, ltb→lt, lt→ltb, leb→le, le→leb, ==_iff,
  Bool-cases, Option-cases, length, get_elem?, get_or, set, take, drop, length-append, length-set,
  get_elem?-set_self, get_elem?-set_ne, sub32, sub32_lem, clear_flag, eperm, enoent, eio, eagain,
  enomem, eacces, efault, ebusy, eexist, einval, enotty, enospc, enametoolong, enotempty, ℤ, pos,
  negsuc, sub_ℕ, pos_part, neg_part, ◌+ℤ◌, Bitmap, write_bit, count_set, count_set-le,
  count_set-set, count_set-clear, count_set-ext, FindsZero, rem, quot, reach_place,
}

pub record Device : Type 0 where
  pub device_count : ℕ
  pub memory : ℕ → ℕ
  pub buffer_ptr : ℕ

abbrev pub buffer_length : ℕ
buffer_length = 256

-- The device, and 0 or an error number.
unfoldable pub device_open : Device → Device × ℕ
device_open d =
    if ltb 0 d.device_count
    then (d, ebusy)
    else (record d { device_count = d.device_count + 1; buffer_ptr = 0 }, 0)

-- The kernel releases only what was opened.
unfoldable pub device_release : Device → Device
device_release d = record d { device_count = d.device_count - 1 }

-- The loop of device_write: the bytes are stored from `i` on.
unfoldable pub store_bytes : (ℕ → ℕ) → ℕ → List ℕ → ℕ → ℕ
store_bytes m i [] = m
store_bytes m i (x ∷ xs) = store_bytes (λ k. if k == i then x else m k) (i + 1) xs

-- The user's buffer is the list of its `len` bytes.
unfoldable pub device_write : Device → List ℕ → Device × ℕ
device_write d buffer =
    let cleared : ℕ → ℕ = λ k. if ltb k 256 then 0 else d.memory k in
    (record d { memory = store_bytes cleared 0 buffer }, length buffer)

-- The loop of device_read: the bytes that are given to the user, and where it stops.
unfoldable pub read_bytes : ℕ → (ℕ → ℕ) → ℕ → List ℕ × ℕ
read_bytes zero m p = ([], p)
read_bytes (suc sizeval) m p =
    let (rest, p') = read_bytes sizeval m (p + 1) in if m p == 0 then ([], p) else (m p ∷ rest, p')

unfoldable pub device_read : Device → ℕ → Device × List ℕ
device_read d sizeval =
    let (bytes, p) = read_bytes sizeval d.memory d.buffer_ptr in
    if d.memory d.buffer_ptr == 0 then (d, []) else (record d { buffer_ptr = p }, bytes)
