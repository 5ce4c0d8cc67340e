-- ===== src/Packet/Fields/Classes.antt =====
-- The class of a packet by its type code.
use mathlib.Core.Logic.{◌↔◌}
use mote_broker.Prelude.{
  ℕ, ◌≡◌, refl, sym, ap, ◌∙◌, ◌==◌, ==_iff, Bool-cases, inl, inr, List, [], ◌∷◌,
}
use mote_broker.Result.{ok}
use mote_broker.Packet.Fields.{
  PacketClass, connect, connack, publish, puback, pubrec, pubrel, pubcomp, subscribe, suback,
  unsubscribe, unsuback, pingreq, pingresp, auth, type_code, all_packets, infer_from,
  infer_packet_class,
}

infer_from-type_code :
    (cs : List PacketClass) (n : ℕ) (c : PacketClass) → infer_from cs n ≡ ok c → n ≡ type_code c
unfolding infer_from
infer_from-type_code [] n c h = cc h
infer_from-type_code (d ∷ cs) n c h = elim (Bool-cases (type_code d == n)) [
  | inl here ↦
      let q : d ≡ c = cc (here, h) in sym ((==_iff (type_code d) n).0 here) ∙ ap type_code q
  | inr later ↦ infer_from-type_code cs n c (rw later at h)
]

class_of-type_code : (c : PacketClass) → infer_packet_class (type_code c) ≡ ok c
unfolding infer_packet_class type_code
class_of-type_code connect = refl
class_of-type_code connack = refl
class_of-type_code publish = refl
class_of-type_code puback = refl
class_of-type_code pubrec = refl
class_of-type_code pubrel = refl
class_of-type_code pubcomp = refl
class_of-type_code subscribe = refl
class_of-type_code suback = refl
class_of-type_code unsubscribe = refl
class_of-type_code unsuback = refl
class_of-type_code pingreq = refl
class_of-type_code pingresp = refl
class_of-type_code auth = refl

-- A number is taken for the type code of a class exactly if it is the code of that class; so no two
-- classes share a code, and no class is found for any other number.
pub infer_packet_class_iff :
    (n : ℕ) (c : PacketClass) → (infer_packet_class n ≡ ok c) ↔ (n ≡ type_code c)
unfolding infer_packet_class
infer_packet_class_iff n c =
    (infer_from-type_code all_packets n c, λ e. ap infer_packet_class e ∙ class_of-type_code c)
