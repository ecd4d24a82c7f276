-- ===== src/ProcFile.antt =====
-- The proc files of Exercises/Exercise8 and Exercises/Exercise9: a message that is given once, then
-- an empty answer. The message is a parameter: a constant in Exercise8, the clock rates in
-- Exercise9.
use k_rack.Common.{ℕ, ◌≡◌, refl, Bool, true, false, List, [], if◌then◌else◌, take}
use k_rack.CharDevice.{read_bytes}
use k_rack.CharDevice.Laws.{Holds, read_bytes-Holds}

-- `finished` is the static variable; the answer has its new value and the bytes for the user.
unfoldable pub proc_read : Bool → (ℕ → ℕ) → ℕ → Bool × List ℕ
proc_read finished message sizeval =
    if finished then (false, []) else (true, (read_bytes sizeval message 0).0)

-- The first read of a message gives its first bytes, as many as it asks for. The next one gives
-- nothing, even if bytes of the message are left, and the one after it starts from the front again.
pub proc_read-again :
    (message : ℕ → ℕ) (msg : List ℕ) (a b c : ℕ)
    → Holds message 0 msg
    → let first = proc_read false message a in
      let second = proc_read first.0 message b in
      let third = proc_read second.0 message c in
      (first.1 ≡ take a msg) × (second.1 ≡ []) × (third.1 ≡ take c msg)
unfolding proc_read
proc_read-again message msg a b c h =
    ((read_bytes-Holds a message 0 msg h).0, refl, (read_bytes-Holds c message 0 msg h).0)
