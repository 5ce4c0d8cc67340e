-- ===== src/Handler/Packets/Dispatch.antt =====
-- Which packets the read loop of servers/handler.py takes.
use mote_broker.Prelude.{
  ℕ, ◌≡◌, refl, sym, ap, ◌∙◌, Bool, true, false, ◌&&◌, ◌||◌, ◌==◌, ==_iff, Bool-cases, inl, inr,
  List, [], ◌∷◌, exists, arith,
}
use mote_broker.Result.{Result, ok, err}
use mote_broker.Packet.Fields.{
  PacketClass, connect, connack, publish, puback, pubrec, pubrel, pubcomp, subscribe, suback,
  unsubscribe, unsuback, pingreq, pingresp, auth, type_code, infer_packet_class,
}
use mote_broker.Packet.Fields.Classes.{infer_packet_class_iff}
use mote_broker.Handler.{Session, PacketCondition, waits_for, meet_first, packet_notify}
use mote_broker.Handler.Packets.{
  in_packet_map, is_packet_with_id, by_notify, handle_packet, handle_read, handle_next,
}

abbrev pub is_ok {ℓ} : {R : Type ℓ} → Result R → Bool
is_ok (ok value) = true
is_ok (err raised) = false

abbrev is_code : List ℕ → ℕ → Bool
is_code codes n = exists (λ code. code == n) codes

-- A condition is waiting for the packet.
abbrev pub is_awaited : ℕ → ℕ → Session → Bool
is_awaited n id s = exists (waits_for n id) s.packet_conditions

meet_first-exists :
    (n id : ℕ) (cs : List PacketCondition) → (meet_first n id cs).0 ≡ exists (waits_for n id) cs
unfolding meet_first
meet_first-exists n id [] = refl
meet_first-exists n id (c ∷ cs) = ground (arith, meet_first-exists n id cs)

by_notify-is_ok : (r : Bool × Session) → is_ok (by_notify r).0 ≡ r.0
unfolding by_notify
by_notify-is_ok (true, s) = refl
by_notify-is_ok (false, s) = refl

notify-is_ok :
    (n id : ℕ) (s : Session) → is_ok (by_notify (packet_notify n id s)).0 ≡ is_awaited n id s
unfolding packet_notify
notify-is_ok n id s = by_notify-is_ok _ ∙ meet_first-exists n id s.packet_conditions

-- The classes that are always handled, and those that are where they are awaited.
abbrev pub takes : ℕ → Bool → Bool
takes n awaited =
    is_code (3 ∷ 8 ∷ 10 ∷ 12 ∷ []) n || is_code (4 ∷ 5 ∷ 6 ∷ 7 ∷ 9 ∷ 11 ∷ []) n && awaited

of_class :
    (c : PacketClass) (id : ℕ) (s : Session)
    → is_ok (handle_packet c id s).0 ≡ takes (type_code c) (is_awaited (type_code c) id s)
unfolding handle_packet in_packet_map is_packet_with_id type_code
of_class connect id s = refl
of_class connack id s = refl
of_class publish id s = refl
of_class puback id s = notify-is_ok 4 id s
of_class pubrec id s = notify-is_ok 5 id s
of_class pubrel id s = notify-is_ok 6 id s
of_class pubcomp id s = notify-is_ok 7 id s
of_class subscribe id s = refl
of_class suback id s = notify-is_ok 9 id s
of_class unsubscribe id s = refl
of_class unsuback id s = notify-is_ok 11 id s
of_class pingreq id s = refl
of_class pingresp id s = refl
of_class auth id s = refl

meet_first-absent :
    (n id : ℕ) (cs : List PacketCondition)
    → exists (waits_for n id) cs ≡ false
    → meet_first n id cs ≡ (false, cs)
unfolding meet_first
meet_first-absent n id [] h = refl
meet_first-absent n id (c ∷ cs) h = elim (Bool-cases (waits_for n id c)) [
  | inl e ↦ let no : true ≡ false = rw e at h in cc
  | inr e ↦ rw (e, meet_first-absent n id cs (rw e at h))
]

not_code :
    (n k : ℕ) (c : PacketClass)
    → k ≡ type_code c
    → is_ok (infer_packet_class n) ≡ false
    → (k == n) ≡ false
not_code n k c e h = elim (Bool-cases (k == n)) [
  | inl same ↦
      let found = (infer_packet_class_iff n c).1 (sym ((==_iff k n).0 same) ∙ e) in
      let no : true ≡ false = sym (ap is_ok found) ∙ h in cc
  | inr other ↦ other
]

-- No class, no packet that is taken.
no_class : (n : ℕ) (awaited : Bool) → is_ok (infer_packet_class n) ≡ false → takes n awaited ≡ false
unfolding type_code
no_class n awaited h = rw (
  not_code n 3 publish refl h,
  not_code n 8 subscribe refl h,
  not_code n 10 unsubscribe refl h,
  not_code n 12 pingreq refl h,
  not_code n 4 puback refl h,
  not_code n 5 pubrec refl h,
  not_code n 6 pubrel refl h,
  not_code n 7 pubcomp refl h,
  not_code n 9 suback refl h,
  not_code n 11 unsuback refl h,
)

-- What is refused changes nothing.
notify-refused :
    (n id : ℕ) (s : Session) → is_awaited n id s ≡ false → (by_notify (packet_notify n id s)).1 ≡ s
unfolding packet_notify by_notify
notify-refused n id s h = rw (meet_first-absent n id s.packet_conditions h)

refused :
    (c : PacketClass) (id : ℕ) (s : Session)
    → takes (type_code c) (is_awaited (type_code c) id s) ≡ false
    → (handle_packet c id s).1 ≡ s
unfolding handle_packet in_packet_map is_packet_with_id type_code
refused connect id s h = refl
refused connack id s h = refl
refused publish id s h = refl
refused puback id s h = notify-refused 4 id s h
refused pubrec id s h = notify-refused 5 id s h
refused pubrel id s h = notify-refused 6 id s h
refused pubcomp id s h = notify-refused 7 id s h
refused subscribe id s h = refl
refused suback id s h = notify-refused 9 id s h
refused unsubscribe id s h = refl
refused unsuback id s h = notify-refused 11 id s h
refused pingreq id s h = refl
refused pingresp id s h = refl
refused auth id s h = refl

-- The read loop takes a packet exactly if it is a publish, subscribe, unsubscribe or ping request packet,
-- or an acknowledgement that a condition waits for with its id; any other raises, and leaves the
-- connection's state alone.
pub handle_next-takes :
    (n id : ℕ) (s : Session)
    → (is_ok (handle_next n id s).0 ≡ takes n (is_awaited n id s))
      × (takes n (is_awaited n id s) ≡ false → (handle_next n id s).1 ≡ s)
unfolding handle_next handle_read
handle_next-takes n id s = by_class (infer_packet_class n) refl
  where
    by_class :
        (r : Result PacketClass)
        → infer_packet_class n ≡ r
        → (is_ok (handle_read id s r).0 ≡ takes n (is_awaited n id s))
          × (takes n (is_awaited n id s) ≡ false → (handle_read id s r).1 ≡ s)
    by_class (err e) q = (sym (no_class n (is_awaited n id s) (ap is_ok q)), λ h. refl)
    by_class (ok c) q = rw ((infer_packet_class_iff n c).0 q) (of_class c id s, refused c id s)
