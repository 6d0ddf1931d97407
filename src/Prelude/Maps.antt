-- ===== src/Prelude/Maps.antt =====
-- A Go map with string keys as an association list: its order is the iteration order of one run.
use mathlib.Core.Path.{◌≡◌, refl}
use mathlib.Core.List.{List, [], ◌∷◌}
use mathlib.Core.Option.{Option, none, some}
use Prim.Native.Nat.{◌+◌}
use native.Mathlib.Omega.{arith}
use selenwright.Prelude.Tests.{if◌then◌else◌}
use selenwright.Prelude.Lists.{length}
use selenwright.Prelude.Text.{Str, ◌==◌, ==_iff}

abbrev pub StrMap {ℓ} : Type ℓ → Type ℓ
StrMap V = List (Str × V)

module _ {ℓ} {V : Type ℓ} where
  unfoldable pub lookup : Str → StrMap V → Option V
  lookup key [] = none
  lookup key ((name, value) ∷ rest) = if name == key then some value else lookup key rest

  -- `m[key] = new`
  unfoldable pub insert : Str → V → StrMap V → StrMap V
  insert key new [] = (key, new) ∷ []
  insert key new ((name, old) ∷ rest) =
      if name == key then (key, new) ∷ rest else (name, old) ∷ insert key new rest

  -- `delete(m, key)`
  unfoldable pub delete : Str → StrMap V → StrMap V
  delete key [] = []
  delete key ((name, value) ∷ rest) =
      if name == key then delete key rest else (name, value) ∷ delete key rest

  pub lookup-insert :
      (key other : Str) (new : V) (m : StrMap V)
      → lookup other (insert key new m) ≡ (if key == other then some new else lookup other m)
  unfolding lookup insert
  lookup-insert key other new [] = refl
  lookup-insert key other new ((name, old) ∷ rest) = ground (
    arith,
    ==_iff name other,
    ==_iff key other,
    lookup-insert key other new rest,
    ==_iff name key,
  )

  pub lookup-delete :
      (k j : Str) (m : StrMap V) → lookup j (delete k m) ≡ (if k == j then none else lookup j m)
  unfolding lookup delete
  lookup-delete k j [] = ground arith
  lookup-delete k j ((i, w) ∷ m) =
      ground (arith, ==_iff k j, ==_iff i k, ==_iff i j, lookup-delete k j m)

  -- The keys are pairwise different, as in every Go map.
  abbrev pub KeysNodup : StrMap V → Type ℓ
  KeysNodup [] = Unit
  KeysNodup ((k, v) ∷ m) = (lookup k m ≡ none) × KeysNodup m

  pub insert-KeysNodup : (k : Str) (v : V) (m : StrMap V) → KeysNodup m → KeysNodup (insert k v m)
  unfolding insert lookup
  insert-KeysNodup k v [] h = (refl, tt)
  insert-KeysNodup k v ((j, w) ∷ m) h =
      ground (arith, ==_iff j k, ==_iff k j, lookup-insert k j v m, insert-KeysNodup k v m h.1)

  pub delete-KeysNodup : (k : Str) (m : StrMap V) → KeysNodup m → KeysNodup (delete k m)
  unfolding delete
  delete-KeysNodup k [] h = tt
  delete-KeysNodup k ((j, w) ∷ m) h = ground (arith, lookup-delete k j m, delete-KeysNodup k m h.1)

  pub length-insert_new :
      (k : Str) (v : V) (m : StrMap V) → lookup k m ≡ none → length (insert k v m) ≡ length m + 1
  unfolding insert lookup
  length-insert_new k v [] h = omega arith
  length-insert_new k v ((j, w) ∷ m) h = ground (arith, length-insert_new k v m)

  pub length-insert_present :
      (k : Str) (v w : V) (m : StrMap V) → lookup k m ≡ some w → length (insert k v m) ≡ length m
  unfolding insert lookup
  length-insert_present k v w [] h = cc
  length-insert_present k v w ((j, u) ∷ m) h = ground (arith, length-insert_present k v w m)

  pub delete_absent : (k : Str) (m : StrMap V) → lookup k m ≡ none → delete k m ≡ m
  unfolding delete lookup
  delete_absent k [] h = refl
  delete_absent k ((j, w) ∷ m) h = ground (arith, delete_absent k m)

  pub length-delete_present :
      (k : Str) (v : V) (m : StrMap V)
      → KeysNodup m
      → lookup k m ≡ some v
      → length (delete k m) + 1 ≡ length m
  unfolding delete lookup
  length-delete_present k v [] n h = cc
  length-delete_present k v ((j, w) ∷ m) n h = ground (
    arith,
    ==_iff j k,
    delete_absent k m,
    length-delete_present k v m n.1,
    length-insert_new k v m,
  )
