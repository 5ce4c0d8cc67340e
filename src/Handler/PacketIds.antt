-- ===== src/Handler/PacketIds.antt =====
-- Handler.next_packet_id of servers/handler.py. The set of used ids is a list.
use mote_broker.Prelude.{
  ℕ, zero, suc, ◌+◌, ◌<◌, ◌≡◌, refl, Bool, true, false, ◌==◌, ==_iff, if◌then◌else◌, Bool-cases,
  inl, inr, List, exists, arith,
}
use mote_broker.Result.{Result, ok, err, too_many_packet_ids}

-- i in self.used_ids
abbrev pub mem : ℕ → List ℕ → Bool
mem i used = exists (λ j. j == i) used

-- The loop, on fuel: `i` grows to 65535 at most.
unfoldable pub next_from : ℕ → ℕ → List ℕ → Result ℕ
next_from zero i used = err too_many_packet_ids
next_from (suc fuel) i used =
    let rest = next_from fuel (suc i) used in
    if mem i used then (if suc i == 65535 then err too_many_packet_ids else rest) else ok i

unfoldable pub next_packet_id : List ℕ → Result ℕ
next_packet_id used = next_from 65535 0 used

-- The smallest id below 65535 that is not used, or the error where each of them is.
abbrev pub IsSmallestFree : List ℕ → Result ℕ → Type 0
IsSmallestFree used (ok i) =
    (i < 65535) × (mem i used ≡ false) × ((j : ℕ) → j < i → mem j used ≡ true)
IsSmallestFree used (err e) = (e ≡ too_many_packet_ids) × ((j : ℕ) → j < 65535 → mem j used ≡ true)

used_up_to :
    (i : ℕ) (used : List ℕ)
    → mem i used ≡ true
    → ((j : ℕ) → j < i → mem j used ≡ true)
    → (j : ℕ) → j < suc i
    → mem j used ≡ true
used_up_to i used h below j l = elim (Bool-cases (j == i)) [
  | inl e ↦ rw ((==_iff j i).0 e) h
  | inr e ↦ below j (ground (arith, e, l))
]

last_id : (i : ℕ) → 1 + i ≡ 65535 → (suc i == 65535) ≡ true
last_id i h = ground (arith, h)

earlier_id : (fuel i : ℕ) → suc (suc fuel) + i ≡ 65535 → (suc i == 65535) ≡ false
earlier_id fuel i h = ground (arith, h)

no_id_below_zero : (used : List ℕ) (j : ℕ) → j < 0 → mem j used ≡ true
no_id_below_zero used j l = absurd (omega (arith, l))

next_from-IsSmallestFree :
    (fuel i : ℕ) (used : List ℕ)
    → suc fuel + i ≡ 65535
    → ((j : ℕ) → j < i → mem j used ≡ true)
    → IsSmallestFree used (next_from (suc fuel) i used)
unfolding next_from
next_from-IsSmallestFree zero i used h below = elim (Bool-cases (mem i used)) [
  | inr e ↦ rw e (omega (arith, h), e, below)
  | inl e ↦ rw (e, last_id i h) (refl, λ j l. used_up_to i used e below j (omega (arith, l, h)))
]
next_from-IsSmallestFree (suc fuel) i used h below = elim (Bool-cases (mem i used)) [
  | inr e ↦ rw e (omega (arith, h), e, below)
  | inl e ↦
      rw (e, earlier_id fuel i h)
        (next_from-IsSmallestFree fuel (suc i) used (omega (arith, h)) (used_up_to i used e below))
]

-- The next packet id is the smallest id below 65535 that is not in use; the error is raised only where
-- every id below 65535 is in use.
pub next_packet_id-IsSmallestFree : (used : List ℕ) → IsSmallestFree used (next_packet_id used)
unfolding next_packet_id
next_packet_id-IsSmallestFree used =
    next_from-IsSmallestFree 65534 0 used refl (no_id_below_zero used)
