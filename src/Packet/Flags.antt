-- ===== src/Packet/Flags.antt =====
-- packet/types/flag_group.py, and the flags of packet/publish.py and packet/connect.py. A flag is one
-- bit, or a field with its own `read` and `write`. A Boolean is 0 or 1.
use Prim.Native.Nat.{bit_and, bit_or}
use mote_broker.Prelude.{
  ℕ, ◌-◌, ◌*◌, ◌/◌, ◌%◌, ◌^◌, ◌<◌, ◌≡◌, refl, String, ◌==◌, ◌=str=◌, if◌then◌else◌, List, [], ◌∷◌,
  arith,
}
use mote_broker.Prelude.Bits.{equal_below, equal_below→eq}
use mote_broker.Result.{Result, ok, err, key_error, ◌>>=◌}

pub data FlagType : Type 0 where
  bit : ℕ → FlagType
  qos_bits : ℕ → ℕ → ℕ → FlagType

-- QOSFlag and WillQOSFlag: a mask for reading, one for writing, and a shift.
abbrev pub qos_flag : FlagType
qos_flag = qos_bits 0x06 0xf9 1

abbrev pub will_qos_flag : FlagType
will_qos_flag = qos_bits 0x18 0xe7 3

-- the annotations of the classes, in their order
abbrev pub publish_flags : List (String × FlagType)
publish_flags = ("retain", bit 0x01) ∷ ("qos", qos_flag) ∷ []

abbrev pub connect_flags : List (String × FlagType)
connect_flags =
    ("clean_session", bit 0x02)
    ∷ ("enable_last_will", bit 0x04)
    ∷ ("retain_last_will", bit 0x20)
    ∷ ("enable_password", bit 0x40)
    ∷ ("enable_username", bit 0x80)
    ∷ ("last_will_qos", will_qos_flag)
    ∷ []

abbrev pub Kwargs : Type 0
Kwargs = List (String × ℕ)

-- kwargs[name]
unfoldable pub lookup : String → Kwargs → Result ℕ
lookup name [] = err key_error
lookup name ((key, val) ∷ kwargs) = if key =str= name then ok val else lookup name kwargs

-- `data & ~typ` takes the bits of `typ` away
unfoldable pub write_flag : FlagType → ℕ → ℕ → ℕ
write_flag (bit typ) flags val = if val == 0 then flags - bit_and flags typ else bit_or flags typ
write_flag (qos_bits read_mask write_mask shift) flags val =
    bit_or (bit_and flags write_mask) (val * 2 ^ shift)

unfoldable pub read_flag : FlagType → ℕ → ℕ
read_flag (bit typ) flags = if bit_and flags typ == 0 then 0 else 1
read_flag (qos_bits read_mask write_mask shift) flags = bit_and flags read_mask / 2 ^ shift

-- the loop of from_kwargs
write_flags : List (String × FlagType) → Kwargs → ℕ → Result ℕ
write_flags [] kwargs flags = ok flags
write_flags ((name, typ) ∷ types) kwargs flags =
    lookup name kwargs >>= λ val. write_flags types kwargs (write_flag typ flags val)

unfoldable pub from_kwargs : List (String × FlagType) → Kwargs → Result ℕ
unfolding write_flags write_flag lookup
from_kwargs types kwargs = write_flags types kwargs 0

unfoldable pub from_int : List (String × FlagType) → ℕ → Kwargs
unfolding read_flag
from_int [] flags = []
from_int ((name, typ) ∷ types) flags = (name, read_flag typ flags) ∷ from_int types flags

-- a result as a number that no byte is, if it is an error
value_or_1000 : Result ℕ → ℕ
value_or_1000 (ok n) = n
value_or_1000 (err e) = 1000

ok_of_value : (r : Result ℕ) (n : ℕ) → n < 1000 → value_or_1000 r ≡ n → r ≡ ok n
unfolding value_or_1000
ok_of_value (ok m) n h e = cc
ok_of_value (err x) n h e = absurd (omega arith)

abbrev rewritten : List (String × FlagType) → ℕ → Result ℕ
rewritten types b = from_kwargs types (from_int types b)

publish_table : (b : ℕ) → b < 256 → value_or_1000 (rewritten publish_flags b) ≡ b % 8
unfolding equal_below from_kwargs from_int value_or_1000
publish_table = equal_below→eq _ _ 256 refl

connect_table : (b : ℕ) → b < 256 → value_or_1000 (rewritten connect_flags b) ≡ b / 2 * 2
unfolding equal_below from_kwargs from_int value_or_1000
connect_table = equal_below→eq _ _ 256 refl

-- The flags of a byte, written again, give the byte less the bits that no flag names: those above bit
-- 2 for a publish packet, and bit 0 for a connect packet.
from_kwargs-from_int :
    (b : ℕ)
    → b < 256
    → (from_kwargs publish_flags (from_int publish_flags b) ≡ ok (b % 8))
      × (from_kwargs connect_flags (from_int connect_flags b) ≡ ok (b / 2 * 2))
from_kwargs-from_int b h = (
  ok_of_value _ (b % 8) (omega arith) (publish_table b h),
  ok_of_value _ (b / 2 * 2) (omega arith) (connect_table b h),
)
