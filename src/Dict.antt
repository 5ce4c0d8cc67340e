-- ===== src/Dict.antt =====
-- Python's `dict` with text keys, nested: a value is an atom or a dict. Entries stand in the
-- order of insertion, which `items()` follows; writing a key that is there keeps its place.
pub mod Laws
use mote_broker.Prelude.{String, Bool, true, false, Option, none, some, ◌=str=◌, if◌then◌else◌}

mutual
  pub data Item {ℓ} (A : Type ℓ) : Type ℓ where
    atom : A → Item A
    dict : Dict A → Item A

  pub data Dict {ℓ} (A : Type ℓ) : Type ℓ where
    empty : Dict A
    entry : String → Item A → Dict A → Dict A

module _ {ℓ} {A : Type ℓ} where
  -- d.get(k)
  unfoldable pub get : String → Dict A → Option (Item A)
  get k empty = none
  get k (entry j it d) = if j =str= k then some it else get k d

  -- d[k] = it
  unfoldable pub set : String → Item A → Dict A → Dict A
  set k it empty = entry k it empty
  set k it (entry j jt d) = if j =str= k then entry j it d else entry j jt (set k it d)

  -- d.pop(k, None); a dict holds a key once, so that dropping each entry for it drops the one
  unfoldable pub pop : String → Dict A → Dict A
  pop k empty = empty
  pop k (entry j jt d) = if j =str= k then pop k d else entry j jt (pop k d)

  -- not d
  abbrev pub is_empty : Dict A → Bool
  is_empty empty = true
  is_empty (entry k it d) = false
