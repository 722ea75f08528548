-- ===== src/Keyer/Protocol/Device.antt =====
-- The bytes of the physical keyer and the policy of host commands (winkeyer/protocol.rs).
use cathub.Prelude.{
  ℕ, ◌≤◌, ◌<◌, ◌≡◌, refl, arith, Bool, true, ◌&&◌, ltb, leb, ◌==◌, every_below, every_below_sound,
  ◌-◌,
}
use cathub.Keyer.Protocol.{DeviceEvent, speed_pot, status, echo, event_from_byte}

-- The three classes by the range of the byte.
abbrev pub IsClassified : ℕ → DeviceEvent → Type 0
IsClassified b (speed_pot raw value) = (0x80 ≤ b) × (b < 0xc0) × (raw ≡ b) × (value ≡ b - 0x80)
IsClassified b (status s) = (0xc0 ≤ b) × (b < 0x100) × (s.raw ≡ b)
IsClassified b (echo raw) = (b < 0x80) × (raw ≡ b)

abbrev classified_test : ℕ → DeviceEvent → Bool
classified_test b (speed_pot raw value) = leb 0x80 b && ltb b 0xc0 && raw == b && value == b - 0x80
classified_test b (status s) = leb 0xc0 b && ltb b 0x100 && s.raw == b
classified_test b (echo raw) = ltb b 0x80 && raw == b

classified_table : every_below 256 (λ b. classified_test b (event_from_byte b)) ≡ true
unfolding every_below event_from_byte
classified_table = refl

classified_test-IsClassified :
    (b : ℕ) (e : DeviceEvent) → classified_test b e ≡ true → IsClassified b e
classified_test-IsClassified b (speed_pot raw value) h = ground arith
classified_test-IsClassified b (status s) h = ground arith
classified_test-IsClassified b (echo raw) h = ground arith

-- Every byte of the device is classified by its range: 0x80 to 0xbf is the speed pot, with the
-- value that the byte has above 0x80; 0xc0 to 0xff is a status that keeps the byte; below 0x80
-- it is an echo of the byte.
pub event_from_byte-IsClassified : (b : ℕ) → b < 256 → IsClassified b (event_from_byte b)
event_from_byte-IsClassified b h =
    classified_test-IsClassified b (event_from_byte b)
      (every_below_sound 256 (λ b. classified_test b (event_from_byte b)) b classified_table h)
