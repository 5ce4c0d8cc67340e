-- ===== src/Handler/Exchange/Conditions.antt =====
-- The set of packet conditions, around a condition that is made, met and removed.
use mote_broker.Prelude.{
  ℕ, suc, ◌<◌, ◌≡◌, refl, ap, Bool, true, false, not, ◌&&◌, ◌==◌, Bool-cases, inl, inr, List, [],
  ◌∷◌, ◌++◌, All, keep, exists, arith,
}
use mote_broker.Handler.{PacketCondition, same_condition, waits_for, met, meet_first}

-- The Condition objects were all made before.
abbrev pub IsFresh : ℕ → List PacketCondition → Type 0
IsFresh made cs = All (λ (c : PacketCondition). c.condition < made) cs

abbrev pub waiting : ℕ → ℕ → ℕ → PacketCondition
waiting type_code i made = record {
  type_code = type_code;
  id = i;
  result = false;
  condition = made;
}

==_self : (n : ℕ) → (n == n) ≡ true
==_self n = ground arith

and-false : (a : Bool) → (a && false) ≡ false
and-false true = refl
and-false false = refl

module _ (type_code i made : ℕ) where
  abbrev new : PacketCondition
  new = waiting type_code i made

  same_old : (c : PacketCondition) → c.condition < made → same_condition new c ≡ false
  same_old c h = ground (arith, h)

  same_met : same_condition new (met new) ≡ true
  same_met = ground arith

  pub same_condition_fresh :
      (cs : List PacketCondition) → IsFresh made cs → exists (same_condition new) cs ≡ false
  same_condition_fresh [] h = refl
  same_condition_fresh (c ∷ cs) h = rw (same_old c h.0, same_condition_fresh cs h.1)

  pub meet_first-append :
      (cs : List PacketCondition)
      → exists (waits_for type_code i) cs ≡ false
      → meet_first type_code i (cs ++ new ∷ []) ≡ (true, cs ++ met new ∷ [])
  unfolding meet_first
  meet_first-append [] h = rw (==_self type_code, ==_self i)
  meet_first-append (c ∷ cs) h = elim (Bool-cases (waits_for type_code i c)) [
    | inl e ↦ ground (arith, e, h)
    | inr e ↦ rw (e, meet_first-append cs (ground (arith, e, h)))
  ]

  pub keep-met :
      (cs : List PacketCondition)
      → IsFresh made cs
      → keep (λ other. not (same_condition new other)) (cs ++ met new ∷ []) ≡ cs
  keep-met [] h = rw same_met
  keep-met (c ∷ cs) h = rw (same_old c h.0) (ap (λ rest. c ∷ rest) (keep-met cs h.1))

  pub is_met-append :
      (cs : List PacketCondition)
      → exists
          (λ (other : PacketCondition). other.result && same_condition new other)
          (cs ++ met new ∷ [])
        ≡ true
  is_met-append [] = rw same_met
  is_met-append (c ∷ cs) = ground (arith, is_met-append cs)

  pub is_met-waiting :
      (cs : List PacketCondition)
      → IsFresh made cs
      → exists
          (λ (other : PacketCondition). other.result && same_condition new other)
          (cs ++ new ∷ [])
        ≡ false
  is_met-waiting [] h = refl
  is_met-waiting (c ∷ cs) h = rw (same_old c h.0, and-false, is_met-waiting cs h.1)

pub IsFresh-suc : (made : ℕ) (cs : List PacketCondition) → IsFresh made cs → IsFresh (suc made) cs
IsFresh-suc made [] h = tt
IsFresh-suc made (c ∷ cs) h = (omega (arith, h.0), IsFresh-suc made cs h.1)
