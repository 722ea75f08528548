-- ===== src/Radio/Model.antt =====
-- model.rs: VFOs, modes, changes and mutations. An `i32` is an integer `pos n` or `negsuc n`.
use cathub.Prelude.{ℕ, ◌≡◌, refl, Bool, true, false, Option, ◌==◌, if◌then◌else◌}

pub data Vfo : Type 0 where
  a b : Vfo

unfoldable pub other : Vfo → Vfo
other a = b
other b = a

abbrev pub same_vfo : Vfo → Vfo → Bool
same_vfo a a = true
same_vfo b b = true
same_vfo _ _ = false

pub data ℤ : Type 0 where
  pos : ℕ → ℤ
  negsuc : ℕ → ℤ

abbrev pub same_int : ℤ → ℤ → Bool
same_int (pos m) (pos n) = m == n
same_int (negsuc m) (negsuc n) = m == n
same_int _ _ = false

abbrev pub same_bool : Bool → Bool → Bool
same_bool true true = true
same_bool false false = true
same_bool _ _ = false

pub record TxPower : Type 0 where
  pub relative_millionths : ℕ
  pub milliwatts : ℕ
  pub max_milliwatts : Option ℕ

pub data Mode : Type 0 where
  lsb usb cw cw_r fsk fsk_r am fm unknown : Mode

unfoldable pub to_kenwood_digit : Mode → ℕ
to_kenwood_digit lsb = b'1'
to_kenwood_digit usb = b'2'
to_kenwood_digit unknown = b'2'
to_kenwood_digit cw = b'3'
to_kenwood_digit fm = b'4'
to_kenwood_digit am = b'5'
to_kenwood_digit fsk = b'6'
to_kenwood_digit cw_r = b'7'
to_kenwood_digit fsk_r = b'9'

unfoldable pub from_kenwood_digit : ℕ → Mode
from_kenwood_digit digit =
    if digit == b'1'
    then lsb
    else if digit == b'2'
    then usb
    else if digit == b'3'
    then cw
    else if digit == b'4'
    then fm
    else if digit == b'5'
    then am
    else if digit == b'6'
    then fsk
    else if digit == b'7'
    then cw_r
    else if digit == b'9'
    then fsk_r
    else unknown

-- The derived equality, by an index for each mode.
abbrev pub mode_index : Mode → ℕ
mode_index lsb = 0
mode_index usb = 1
mode_index cw = 2
mode_index cw_r = 3
mode_index fsk = 4
mode_index fsk_r = 5
mode_index am = 6
mode_index fm = 7
mode_index unknown = 8

abbrev pub same_mode : Mode → Mode → Bool
same_mode m n = mode_index m == mode_index n

pub data PttSource : Type 0 where
  generic mic data_source : PttSource

pub data StateMutation : Type 0 where
  set_rx_vfo : Vfo → StateMutation
  set_vfo_freq : Vfo → ℕ → StateMutation
  set_mode : Vfo → Mode → StateMutation
  set_data_mode : Vfo → Bool → StateMutation
  set_split : Bool → Option Vfo → StateMutation
  set_ptt : Bool → PttSource → StateMutation
  set_rit : ℤ → Bool → StateMutation
  set_xit : ℤ → Bool → StateMutation

pub data StateChange : Type 0 where
  rx_vfo : Vfo → StateChange
  freq : Vfo → ℕ → StateChange
  mode : Vfo → Mode → StateChange
  data_mode : Vfo → Bool → StateChange
  split : Bool → Option Vfo → StateChange
  ptt : Bool → StateChange
  rit : Bool → ℤ → StateChange
  xit : Bool → ℤ → StateChange
  tx_power : Option TxPower → StateChange

unfoldable pub into_change : StateMutation → StateChange
into_change (set_rx_vfo vfo) = rx_vfo vfo
into_change (set_vfo_freq vfo hz) = freq vfo hz
into_change (set_mode vfo m) = mode vfo m
into_change (set_data_mode vfo on) = data_mode vfo on
into_change (set_split enabled tx_vfo) = split enabled tx_vfo
into_change (set_ptt keyed source) = ptt keyed
into_change (set_rit offset_hz enabled) = rit enabled offset_hz
into_change (set_xit offset_hz enabled) = xit enabled offset_hz

pub data Field : Type 0 where
  rx_vfo_field : Field
  freq_field : Vfo → Field
  mode_field : Vfo → Field
  split_field ptt_field rit_field xit_field s_meter_field power_field : Field

unfoldable pub field : StateChange → Field
field (rx_vfo vfo) = rx_vfo_field
field (freq vfo hz) = freq_field vfo
field (mode vfo m) = mode_field vfo
field (data_mode vfo on) = mode_field vfo
field (split enabled tx_vfo) = split_field
field (ptt keyed) = ptt_field
field (rit enabled offset_hz) = rit_field
field (xit enabled offset_hz) = xit_field
field (tx_power power) = power_field

pub data RadioEventSource : Type 0 where
  native_push poll_diff optimistic_write verify_read : RadioEventSource

-- A mode that has a digit of its own is read back from it.
pub from-to_kenwood_digit :
    (m : Mode) → from_kenwood_digit (to_kenwood_digit m) ≡ (if same_mode m unknown then usb else m)
unfolding from_kenwood_digit to_kenwood_digit
from-to_kenwood_digit lsb = refl
from-to_kenwood_digit usb = refl
from-to_kenwood_digit cw = refl
from-to_kenwood_digit cw_r = refl
from-to_kenwood_digit fsk = refl
from-to_kenwood_digit fsk_r = refl
from-to_kenwood_digit am = refl
from-to_kenwood_digit fm = refl
from-to_kenwood_digit unknown = refl
