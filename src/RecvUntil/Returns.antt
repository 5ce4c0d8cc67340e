-- ===== src/RecvUntil/Returns.antt =====
-- When recv_until of utils/recv_until.py returns: where the delimiter comes before the peer closes.
use mote_broker.Prelude.{
  ℕ, ◌⊎◌, inl, inr, zero, suc, String, true, ◌≡◌, refl, ap, ◌∙◌, Option, none, some, List, [], ◌∷◌,
  ◌++◌, length, append_assoc, append-nil, arith, ◌≤◌, ◌<◌,
}
use mote_broker.Protocols.{Bytes}
use mote_broker.Result.{Result}
use mote_broker.RecvUntil.{starts_with, find, recv, recv_loop, recv_until}

-- All bytes that the peer sends.
abbrev pub concat : List Bytes → Bytes
concat [] = []
concat (answer ∷ answers) = answer ++ concat answers

starts_with-append :
    (p bytes more : Bytes) → starts_with p bytes ≡ true → starts_with p (bytes ++ more) ≡ true
unfolding starts_with
starts_with-append [] bytes more h = refl
starts_with-append (a ∷ p) [] more h = cc
starts_with-append (a ∷ p) (b ∷ bytes) more h = ground (arith, starts_with-append p bytes more)

-- What is not in the whole is not in its beginning.
pub find-append_none :
    (bytes more edl : Bytes) → find (bytes ++ more) edl ≡ none → find bytes edl ≡ none
unfolding find
find-append_none [] [] edl h = h
find-append_none [] (b ∷ more) edl h = ground (arith, starts_with-append edl [] (b ∷ more))
find-append_none (b ∷ bytes) more edl h =
    ground (arith, starts_with-append edl (b ∷ bytes) more, find-append_none bytes more edl)

-- The bytes that are read up to the delimiter, and those behind them.
pub record Found (edl all : Bytes) : Type 0 where
  pub read : Bytes
  pub later : Bytes
  pub position : ℕ
  pub parts : read ++ later ≡ all
  pub contains : find read edl ≡ some position

find-cases : (o : Option ℕ) → (o ≡ none) ⊎ ((i : ℕ) × (o ≡ some i))
find-cases none = inl refl
find-cases (some i) = inr (i, refl)

recv_loop-found :
    (edl bytes : Bytes) (answers : List Bytes) (fuel i : ℕ)
    → find bytes edl ≡ some i
    → recv_loop edl bytes answers fuel ≡ some bytes
unfolding recv_loop
recv_loop-found edl bytes answers zero i h = rw (recv_loop, h)
recv_loop-found edl bytes answers (suc fuel) i h = rw (recv_loop, h)

-- Fuel for the answers that are left is enough: the loop ends by the time that it has read all.
recv_loop-ends :
    (edl bytes : Bytes) (answers : List Bytes) (fuel i : ℕ)
    → length answers ≤ fuel
    → find (bytes ++ concat answers) edl ≡ some i
    → (f : Found edl (bytes ++ concat answers)) × (recv_loop edl bytes answers fuel ≡ some f.read)
unfolding recv_loop recv
recv_loop-ends edl bytes [] fuel i l h =
    let h' : find bytes edl ≡ some i = rw append-nil at h in
    (
      record { read = bytes; later = []; position = i; parts = refl; contains = h' },
      recv_loop-found edl bytes [] fuel i h',
    )
recv_loop-ends edl bytes (answer ∷ answers) zero i l h =
    let no : length answers < length answers = omega (arith, l) in ground arith
recv_loop-ends edl bytes (answer ∷ answers) (suc fuel) i l h = elim (find-cases (find bytes edl)) [
  | inl e ↦
      let whole = append_assoc bytes answer (concat answers) in
      let l' : length answers ≤ fuel = omega (arith, l) in
      let ended =
        recv_loop-ends edl (bytes ++ answer) answers fuel i l'
          (ap (λ all. find all edl) whole ∙ h) in
      let f = ended.0 in
      (
        record {
          read = f.read;
          later = f.later;
          position = f.position;
          parts = f.parts ∙ whole;
          contains = f.contains;
        },
        rw (recv_loop, e, ended.1),
      )
  | inr (j, e) ↦ (
    record {
      read = bytes;
      later = concat (answer ∷ answers);
      position = j;
      parts = refl;
      contains = e;
    },
    rw (recv_loop, e),
  )
]

pub recv_loop-never :
    (edl bytes : Bytes) (answers : List Bytes) (fuel : ℕ)
    → find (bytes ++ concat answers) edl ≡ none
    → recv_loop edl bytes answers fuel ≡ none
unfolding recv_loop recv
recv_loop-never edl bytes answers zero h =
    rw (recv_loop, find-append_none bytes (concat answers) edl h)
recv_loop-never edl bytes [] (suc fuel) h = rw (
  recv_loop,
  find-append_none bytes [] edl h,
  recv_loop-never edl (bytes ++ []) [] fuel
      (ap (λ all. find all edl) (append-nil (bytes ++ [])) ∙ h),
)
recv_loop-never edl bytes (answer ∷ answers) (suc fuel) h =
    let whole = append_assoc bytes answer (concat answers) in
    rw (
      recv_loop,
      find-append_none bytes (concat (answer ∷ answers)) edl h,
      recv_loop-never edl (bytes ++ answer) answers fuel (ap (λ all. find all edl) whole ∙ h),
    )

module _ (decode : Bytes → Result String) where
  -- Where the peer sends the delimiter, recv_until returns, on fuel for each answer, what it has read
  -- by then: the first bytes that the peer sent, with the delimiter in them.
  pub recv_until-returns :
      (edl : Bytes) (answers : List Bytes) (fuel i : ℕ)
      → length answers ≤ fuel
      → find (concat answers) edl ≡ some i
      → (f : Found edl (concat answers)) × (recv_until decode edl answers fuel
          ≡ some (decode f.read))
  unfolding recv_until recv
  recv_until-returns edl [] fuel i l h =
      let ended = recv_loop-ends edl [] [] fuel i l h in (ended.0, rw (recv_until, ended.1))
  recv_until-returns edl (answer ∷ answers) fuel i l h =
      let l' : length answers ≤ fuel = omega (arith, l) in
      let ended = recv_loop-ends edl answer answers fuel i l' h in
      (ended.0, rw (recv_until, ended.1))

  -- Where the peer closes before it has sent the delimiter, recv_until never returns.
  pub recv_until-never :
      (edl : Bytes) (answers : List Bytes) (fuel : ℕ)
      → find (concat answers) edl ≡ none
      → recv_until decode edl answers fuel ≡ none
  unfolding recv_until recv
  recv_until-never edl [] fuel h = rw (recv_until, recv_loop-never edl [] [] fuel h)
  recv_until-never edl (answer ∷ answers) fuel h =
      rw (recv_until, recv_loop-never edl answer answers fuel h)
