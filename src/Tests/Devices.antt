-- ===== src/Tests/Devices.antt =====
-- The theorems on the character device and the proc files, applied to the message 7, 8, 9 and to a
-- write of 257 bytes.
use k_rack.Common.{
  ℕ, zero, suc, ◌+◌, ◌≡◌, refl, false, List, [], ◌∷◌, arith, ltb, if◌then◌else◌, length, take, drop,
}
use k_rack.CharDevice.{Device, device_open, device_write, device_read}
use k_rack.ProcFile.{proc_read, proc_read-again}
use k_rack.CharDevice.Laws.{device_write-device_read, device_write-everywhere}

abbrev closed_device : Device
closed_device = record { device_count = 0; memory = λ _. 1; buffer_ptr = 5 }

abbrev message : List ℕ
message = 7 ∷ (8 ∷ (9 ∷ []))

device_write-device_read_example :
    let opened = (device_open closed_device).0 in
    let written = (device_write opened message).0 in
    let once = device_read written 2 in
    (once.1 ≡ take 2 message)
    × ((device_read once.0 5).1 ≡ take 5 (drop 2 message))
    × (device_open opened ≡ (opened, 16))
device_write-device_read_example =
    device_write-device_read closed_device message 2 5 refl
      (omega arith, (omega arith, (omega arith, tt))) (omega arith)

-- `n` bytes of value 3.
abbrev threes : ℕ → List ℕ
threes zero = []
threes (suc n) = 3 ∷ threes n

device_write-everywhere_example :
    (((device_write closed_device (threes 257)).0).memory 256 ≡ 3)
    × ((device_write closed_device (threes 257)).1 ≡ length (threes 257))
device_write-everywhere_example = device_write-everywhere closed_device (threes 257) 256 3 refl

-- The message 7, 8, 9, with a zero byte behind it.
abbrev in_memory : ℕ → ℕ
in_memory k = if ltb k 3 then k + 7 else 0

proc_read-again_example :
    let first = proc_read false in_memory 2 in
    let second = proc_read first.0 in_memory 4 in
    let third = proc_read second.0 in_memory 4 in
    (first.1 ≡ take 2 message) × (second.1 ≡ []) × (third.1 ≡ take 4 message)
proc_read-again_example =
    proc_read-again in_memory message 2 4 4
      (refl, omega arith, (refl, omega arith, (refl, omega arith, refl)))
