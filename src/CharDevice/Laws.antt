-- ===== src/CharDevice/Laws.antt =====
-- The message of the character device (Exercises/Exercise7) is read back in pieces.
use k_rack.Common.{
  ℕ, zero, suc, ◌+◌, ◌≤◌, ◌<◌, ◌≡◌, refl, sym, ap, subst, ◌∙◌, ◌≢◌, some, List, [], ◌∷◌, arith, ltb,
  ◌==◌, if◌then◌else◌, ltb→lt, lt→ltb, ==_iff, length, get_elem?, take, drop, ebusy,
}
use k_rack.CharDevice.{Device, device_open, store_bytes, device_write, read_bytes, device_read}

-- From `p` on, the memory holds a message without zero bytes, and then a zero byte.
abbrev pub Holds : (ℕ → ℕ) → ℕ → List ℕ → Type 0
Holds m p [] = m p ≡ 0
Holds m p (x ∷ xs) = (m p ≡ x) × (x ≢ 0) × Holds m (p + 1) xs

abbrev pub NoZero : List ℕ → Type 0
NoZero [] = Unit {0}
NoZero (x ∷ xs) = (x ≢ 0) × NoZero xs

pub read_bytes-Holds :
    (n : ℕ) (m : ℕ → ℕ) (p : ℕ) (msg : List ℕ)
    → Holds m p msg
    → (read_bytes n m p).0 ≡ take n msg × Holds m (read_bytes n m p).1 (drop n msg)
unfolding read_bytes
read_bytes-Holds zero m p msg h = (refl, h)
read_bytes-Holds (suc n) m p [] h =
    let stop : ([], p) ≡ read_bytes (suc n) m p = ground (arith, h) in
    subst (λ (r : List ℕ × ℕ). (r.0 ≡ []) × Holds m r.1 []) stop (refl, h)
read_bytes-Holds (suc n) m p (x ∷ xs) (e, ne, h) =
    let (u, v) = read_bytes-Holds n m (p + 1) xs h in
    let r = read_bytes n m (p + 1) in
    let on : (m p ∷ r.0, r.1) ≡ read_bytes (suc n) m p = ground (arith, e, ne) in
    subst (λ (r : List ℕ × ℕ). (r.0 ≡ x ∷ take n xs) × Holds m r.1 (drop n xs)) on
      (ap (λ y. y ∷ r.0) e ∙ ap (λ ys. x ∷ ys) u, v)

store_bytes-before : (m : ℕ → ℕ) (i k : ℕ) (xs : List ℕ) → k < i → store_bytes m i xs k ≡ m k
unfolding store_bytes
store_bytes-before m i k [] l = refl
store_bytes-before m i k (x ∷ xs) l =
    store_bytes-before (λ j. if j == i then x else m j) (i + 1) k xs (omega arith)
    ∙ ground (arith, ==_iff k i)

store_bytes-behind :
    (m : ℕ → ℕ) (i k : ℕ) (xs : List ℕ) → i + length xs ≤ k → store_bytes m i xs k ≡ m k
unfolding store_bytes
store_bytes-behind m i k [] l = refl
store_bytes-behind m i k (x ∷ xs) l =
    store_bytes-behind (λ j. if j == i then x else m j) (i + 1) k xs (omega arith)
    ∙ ground (arith, ==_iff k i)

store_bytes-Holds :
    (m : ℕ → ℕ) (i : ℕ) (xs : List ℕ)
    → NoZero xs
    → m (i + length xs) ≡ 0
    → Holds (store_bytes m i xs) i xs
unfolding store_bytes
store_bytes-Holds m i [] z e = ap m (omega arith) ∙ e
store_bytes-Holds m i (x ∷ xs) (ne, z) e =
    let m' : ℕ → ℕ = λ j. if j == i then x else m j in
    (
      store_bytes-before m' (i + 1) i xs (omega arith) ∙ ground arith,
      ne,
      store_bytes-Holds m' (i + 1) xs z (
          ground (
            arith,
            ==_iff (i + 1 + length xs) i,
            ap m {x = i + 1 + length xs} {y = i + suc (length xs)} (omega arith),
            e,
          )),
    )

device_read-Holds :
    (d : Device) (sizeval : ℕ) (msg : List ℕ)
    → Holds d.memory d.buffer_ptr msg
    → let r = device_read d sizeval in
      (r.1 ≡ take sizeval msg) × Holds (r.0).memory (r.0).buffer_ptr (drop sizeval msg)
unfolding device_read
device_read-Holds d sizeval [] h =
    let stop : (d, []) ≡ device_read d sizeval = ground (arith, h) in
    subst
      (λ (r : Device × List ℕ).
        (r.1 ≡ take sizeval []) × Holds (r.0).memory (r.0).buffer_ptr (drop sizeval []))
      stop (nothing sizeval, subst (Holds d.memory d.buffer_ptr) (none_left sizeval) h)
  where
    nothing : (n : ℕ) → ◌≡◌ {A = List ℕ} [] (take n [])
    nothing zero = refl
    nothing (suc n) = refl

    none_left : (n : ℕ) → ◌≡◌ {A = List ℕ} [] (drop n [])
    none_left zero = refl
    none_left (suc n) = refl
device_read-Holds d sizeval (x ∷ xs) (e, ne, h) =
    let b = read_bytes sizeval d.memory d.buffer_ptr in
    let on : (record d { buffer_ptr = b.1 }, b.0) ≡ device_read d sizeval = ground (arith, e, ne) in
    subst
      (λ (r : Device × List ℕ).
        (r.1 ≡ take sizeval (x ∷ xs)) × Holds (r.0).memory (r.0).buffer_ptr (drop sizeval (x ∷ xs)))
      on (read_bytes-Holds sizeval d.memory d.buffer_ptr (x ∷ xs) (e, ne, h))

-- A message without zero bytes that is shorter than the buffer is read back after the device is
-- opened and the message is written: each of two reads gives the next bytes, as many as it asks
-- for, until the message ends. A second open before the release is refused with EBUSY and changes
-- nothing.
pub device_write-device_read :
    (d : Device) (msg : List ℕ) (a b : ℕ)
    → d.device_count ≡ 0
    → NoZero msg
    → length msg < 256
    → let opened = (device_open d).0 in
      let written = (device_write opened msg).0 in
      let once = device_read written a in
      (once.1 ≡ take a msg)
      × ((device_read once.0 b).1 ≡ take b (drop a msg))
      × (device_open opened ≡ (opened, ebusy))
unfolding device_open device_write
device_write-device_read d msg a b closed z short =
    let opened = (device_open d).0 in
    let written = (device_write opened msg).0 in
    let first : opened.buffer_ptr ≡ 0 = ground (arith, closed) in
    let cleared : ℕ → ℕ = λ k. if ltb k 256 then 0 else opened.memory k in
    let holds = store_bytes-Holds cleared 0 msg z (ground (arith, lt→ltb (0 + length msg) 256)) in
    let (u, v) =
      device_read-Holds written a msg (subst (λ p. Holds written.memory p msg) (sym first) holds) in
    (u, (device_read-Holds (device_read written a).0 b (drop a msg) v).0, ground (arith, closed))

store_bytes-at :
    (m : ℕ → ℕ) (i k x : ℕ) (xs : List ℕ) → get_elem? xs k ≡ some x → store_bytes m i xs (i + k) ≡ x
unfolding store_bytes
store_bytes-at m i k x [] e = absurd (cc e)
store_bytes-at m i zero x (y ∷ ys) e =
    store_bytes-before (λ j. if j == i then y else m j) (i + 1) (i + 0) ys (omega arith)
    ∙ ground (arith, e)
store_bytes-at m i (suc k) x (y ∷ ys) e =
    let m' : ℕ → ℕ = λ j. if j == i then y else m j in
    ap (store_bytes m' (i + 1) ys) {x = i + suc k} {y = i + 1 + k} (omega arith)
    ∙ store_bytes-at m' (i + 1) k x ys e

-- A write of at most 256 bytes leaves the memory behind the buffer as it was.
pub device_write-inside :
    (d : Device) (buffer : List ℕ) (k : ℕ)
    → length buffer ≤ 256
    → 256 ≤ k
    → ((device_write d buffer).0).memory k ≡ d.memory k
unfolding device_write
device_write-inside d buffer k l h =
    let cleared : ℕ → ℕ = λ k. if ltb k 256 then 0 else d.memory k in
    store_bytes-behind cleared 0 k buffer (omega arith) ∙ ground (arith, ltb→lt k 256)

-- Every byte of the user's buffer is stored at its number, whether that lies in the buffer of 256
-- bytes or behind it: a longer write is not refused.
pub device_write-everywhere :
    (d : Device) (buffer : List ℕ) (k x : ℕ)
    → get_elem? buffer k ≡ some x
    → (((device_write d buffer).0).memory k ≡ x) × ((device_write d buffer).1 ≡ length buffer)
unfolding device_write
device_write-everywhere d buffer k x e =
    let cleared : ℕ → ℕ = λ k. if ltb k 256 then 0 else d.memory k in
    (
      ap (store_bytes cleared 0 buffer) {x = k} {y = 0 + k} (omega arith)
          ∙ store_bytes-at cleared 0 k x buffer e,
      refl,
    )
