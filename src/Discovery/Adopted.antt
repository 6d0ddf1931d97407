-- ===== src/Discovery/Adopted.antt =====
-- discovery/adopted.go: the digests that have been adopted and dismissed, in memory and on disk.
pub mod Refines
use selenwright.Prelude.{
  Bool, true, false, List, [], ◌∷◌, Option, none, some, Str, StrMap, lookup, insert, delete,
  is_some, if◌then◌else◌, ℤ, Result, ok, err,
}

-- `AdoptedEntry` and `DismissedEntry`, which have the same fields.
pub record Entry : Type 0 where
  pub at : ℤ
  pub browser : Str
  pub version : Str
  pub repo_tag : Str

pub record AdoptedState : Type 0 where
  pub adopted : StrMap Entry
  pub dismissed : StrMap Entry

-- What adopted.json holds.
pub data Contents : Type 0 where
  absent malformed : Contents
  holds : AdoptedState → Contents

-- `data` is the state in memory; the lock makes each method one step.
pub record AdoptedStore : Type 0 where
  pub data_of : AdoptedState
  pub file : Contents

abbrev empty_state : AdoptedState
empty_state = record { adopted = []; dismissed = [] }

pub data StoreError : Type 0 where
  create_dir_failed parse_failed save_failed : StoreError

-- NewAdoptedStore; `made` says whether the directory is there in the end.
unfoldable pub new_adopted_store : Bool → Contents → Result StoreError AdoptedStore
new_adopted_store false file = err create_dir_failed
new_adopted_store true absent = ok (record { data_of = empty_state; file = absent })
new_adopted_store true malformed = err parse_failed
new_adopted_store true (holds d) = ok (record { data_of = d; file = holds d })

abbrev pub is_adopted : Str → AdoptedStore → Bool
is_adopted digest s = is_some (lookup digest s.data_of.adopted)

abbrev pub is_dismissed : Str → AdoptedStore → Bool
is_dismissed digest s = is_some (lookup digest s.data_of.dismissed)

-- saveLocked, which replaces the file as a whole or leaves it, and what Adopt and Dismiss return.
unfoldable pub save_locked : Bool → AdoptedStore → AdoptedStore × Result StoreError (Unit {0})
save_locked saves s =
    if saves then (record s { file = holds s.data_of }, ok tt) else (s, err save_failed)

unfoldable pub adopt :
    Bool → Str → Entry → AdoptedStore → AdoptedStore × Result StoreError (Unit {0})
unfolding save_locked
adopt saves digest entry s = save_locked saves (record s {
  data_of = record {
    adopted = insert digest entry s.data_of.adopted;
    dismissed = delete digest s.data_of.dismissed;
  };
})

unfoldable pub dismiss :
    Bool → Str → Entry → AdoptedStore → AdoptedStore × Result StoreError (Unit {0})
unfolding save_locked
dismiss saves digest entry s = save_locked saves (record s {
  data_of = record {
    adopted = delete digest s.data_of.adopted;
    dismissed = insert digest entry s.data_of.dismissed;
  };
})

-- What happens to a store: its methods, each with the success of its write, and a restart of the
-- service, which reads the file again.
pub data Operation : Type 0 where
  adopts dismisses : Bool → Str → Entry → Operation
  restarts : Operation

-- A file that this store has written is never malformed; a restart keeps the store otherwise.
unfoldable pub operate : Operation → AdoptedStore → AdoptedStore
unfolding adopt dismiss new_adopted_store
operate (adopts saves digest entry) s = (adopt saves digest entry s).0
operate (dismisses saves digest entry) s = (dismiss saves digest entry s).0
operate restarts s = elim (new_adopted_store true s.file) [ err e ↦ s | ok s' ↦ s' ]

unfoldable pub run : List Operation → AdoptedStore → AdoptedStore
unfolding operate
run [] s = s
run (o ∷ os) s = run os (operate o s)
