-- ===== src/Discovery/Adopted/Refines.antt =====
-- The store as a table with one status for each digest, in memory and on disk.
use selenwright.Prelude.{
  ◌≡◌, refl, Bool, true, false, List, [], ◌∷◌, none, some, Str, lookup, insert, delete, is_some,
  lookup-insert, lookup-delete, ◌==◌, if◌then◌else◌, arith, ok, subst, ◌&&◌,
}
use selenwright.Discovery.Adopted.{
  Entry, AdoptedState, Contents, absent, malformed, holds, AdoptedStore, new_adopted_store,
  is_adopted, is_dismissed, save_locked, Operation, adopts, dismisses, restarts, operate, run,
}

-- What a digest is to the operator.
pub data Status : Type 0 where
  undecided : Status
  adopted_as dismissed_as : Entry → Status

-- The abstract store: a status for each digest now, and after a restart.
pub record Table : Type 0 where
  pub now : Str → Status
  pub saved : Str → Status

-- The table with another status for one digest.
abbrev pub update : Str → Status → (Str → Status) → Str → Status
update digest status t d = if digest == d then status else t d

abbrev pub decide : Bool → Str → Status → Table → Table
decide saves digest status t = record {
  now = update digest status t.now;
  saved = if saves then update digest status t.now else t.saved;
}

abbrev pub table_step : Operation → Table → Table
table_step (adopts saves digest entry) t = decide saves digest (adopted_as entry) t
table_step (dismisses saves digest entry) t = decide saves digest (dismissed_as entry) t
table_step restarts t = record { now = t.saved; saved = t.saved }

abbrev pub table_run : List Operation → Table → Table
table_run [] t = t
table_run (o ∷ os) t = table_run os (table_step o t)

-- The status that a state gives a digest, where it has at most one.
unfoldable pub status_in : AdoptedState → Str → Status
status_in a d = elim (lookup d a.adopted) [
  | some e ↦ adopted_as e
  | none ↦ elim (lookup d a.dismissed) [ none ↦ undecided | some e ↦ dismissed_as e ]
]

unfoldable pub status_saved : Contents → Str → Status
unfolding status_in
status_saved absent d = undecided
status_saved malformed d = undecided
status_saved (holds a) d = status_in a d

-- No digest is both adopted and dismissed.
abbrev pub IsDisjoint : AdoptedState → Type 0
IsDisjoint a = (d : Str) → (is_some (lookup d a.adopted) && is_some (lookup d a.dismissed)) ≡ false

abbrev pub IsSaved : Contents → Type 0
IsSaved absent = Unit
IsSaved malformed = ⊥
IsSaved (holds a) = IsDisjoint a

-- The store stands for the table: it is disjoint, and gives each digest the table's status.
pub record Refines (s : AdoptedStore) (t : Table) : Type 0 where
  pub disjoint : IsDisjoint s.data_of
  pub written : IsSaved s.file
  pub current : (d : Str) → status_in s.data_of d ≡ t.now d
  pub durable : (d : Str) → status_saved s.file d ≡ t.saved d

adopt-IsDisjoint :
    (digest : Str) (entry : Entry) (a : AdoptedState)
    → IsDisjoint a
    → IsDisjoint
        (record { adopted = insert digest entry a.adopted; dismissed = delete digest a.dismissed })
adopt-IsDisjoint digest entry a h d =
    ground (arith, h d, lookup-insert digest d entry a.adopted, lookup-delete digest d a.dismissed)

dismiss-IsDisjoint :
    (digest : Str) (entry : Entry) (a : AdoptedState)
    → IsDisjoint a
    → IsDisjoint
        (record { adopted = delete digest a.adopted; dismissed = insert digest entry a.dismissed })
dismiss-IsDisjoint digest entry a h d =
    ground (arith, h d, lookup-insert digest d entry a.dismissed, lookup-delete digest d a.adopted)

adopt-status :
    (digest d : Str) (entry : Entry) (a : AdoptedState)
    → status_in
        (record { adopted = insert digest entry a.adopted; dismissed = delete digest a.dismissed })
        d
      ≡ update digest (adopted_as entry) (status_in a) d
unfolding status_in
adopt-status digest d entry a =
    ground (arith, lookup-insert digest d entry a.adopted, lookup-delete digest d a.dismissed)

dismiss-status :
    (digest d : Str) (entry : Entry) (a : AdoptedState)
    → status_in
        (record { adopted = delete digest a.adopted; dismissed = insert digest entry a.dismissed })
        d
      ≡ update digest (dismissed_as entry) (status_in a) d
unfolding status_in
dismiss-status digest d entry a =
    ground (arith, lookup-insert digest d entry a.dismissed, lookup-delete digest d a.adopted)

restarted :
    (a : AdoptedState) (file : Contents) (t : Table)
    → Refines (record { data_of = a; file = file }) t
    → Refines (operate restarts (record { data_of = a; file = file })) (table_step restarts t)
unfolding operate new_adopted_store status_saved status_in lookup
restarted a absent t r = record {
  disjoint = λ d. refl;
  written = tt;
  current = λ d. ground (arith, r.durable d);
  durable = r.durable;
}
restarted a malformed t r = absurd r.written
restarted a (holds b) t r = record {
  disjoint = r.written;
  written = r.written;
  current = r.durable;
  durable = r.durable;
}

operate-Refines :
    (o : Operation) (s : AdoptedStore) (t : Table)
    → Refines s t
    → Refines (operate o s) (table_step o t)
unfolding operate save_locked status_saved
operate-Refines (adopts true digest entry) s t r = record {
  disjoint = adopt-IsDisjoint digest entry s.data_of r.disjoint;
  written = adopt-IsDisjoint digest entry s.data_of r.disjoint;
  current = λ d. ground (arith, r.current d, adopt-status digest d entry s.data_of);
  durable = λ d. ground (arith, r.current d, adopt-status digest d entry s.data_of);
}
operate-Refines (adopts false digest entry) s t r = record {
  disjoint = adopt-IsDisjoint digest entry s.data_of r.disjoint;
  written = r.written;
  current = λ d. ground (arith, r.current d, adopt-status digest d entry s.data_of);
  durable = r.durable;
}
operate-Refines (dismisses true digest entry) s t r = record {
  disjoint = dismiss-IsDisjoint digest entry s.data_of r.disjoint;
  written = dismiss-IsDisjoint digest entry s.data_of r.disjoint;
  current = λ d. ground (arith, r.current d, dismiss-status digest d entry s.data_of);
  durable = λ d. ground (arith, r.current d, dismiss-status digest d entry s.data_of);
}
operate-Refines (dismisses false digest entry) s t r = record {
  disjoint = dismiss-IsDisjoint digest entry s.data_of r.disjoint;
  written = r.written;
  current = λ d. ground (arith, r.current d, dismiss-status digest d entry s.data_of);
  durable = r.durable;
}
operate-Refines restarts s t r = restarted s.data_of s.file t r

run-Refines :
    (os : List Operation) (s : AdoptedStore) (t : Table)
    → Refines s t
    → Refines (run os s) (table_run os t)
unfolding run
run-Refines [] s t r = r
run-Refines (o ∷ os) s t r = run-Refines os (operate o s) (table_step o t) (operate-Refines o s t r)

abbrev pub shows_adopted : Status → Bool
shows_adopted undecided = false
shows_adopted (adopted_as e) = true
shows_adopted (dismissed_as e) = false

abbrev pub shows_dismissed : Status → Bool
shows_dismissed undecided = false
shows_dismissed (adopted_as e) = false
shows_dismissed (dismissed_as e) = true

is_adopted-Refines :
    (d : Str) (s : AdoptedStore) (t : Table)
    → Refines s t
    → (is_adopted d s ≡ shows_adopted (t.now d)) × (is_dismissed d s ≡ shows_dismissed (t.now d))
unfolding status_in
is_adopted-Refines d s t r = ground (arith, r.disjoint d, r.current d)

-- The table of a store without a file.
abbrev pub blank : Table
blank = record { now = λ d. undecided; saved = λ d. undecided }

-- In every history of Adopt, Dismiss (each with its write done or failed) and restarts, from a new
-- store without a file, the store stands for a table with one status for each digest, which Adopt and
-- Dismiss set, and which a restart takes back to what the last write that was done has saved; and
-- IsAdopted and IsDismissed tell the status of each digest, so that they are never both true.
pub run-table :
    (os : List Operation) (s : AdoptedStore)
    → new_adopted_store true absent ≡ ok s
    → Refines (run os s) (table_run os blank)
      × ((d : Str)
          → (is_adopted d (run os s) ≡ shows_adopted ((table_run os blank).now d))
            × (is_dismissed d (run os s) ≡ shows_dismissed ((table_run os blank).now d)))
unfolding new_adopted_store status_saved status_in lookup
run-table os s e =
    let fresh : record { data_of = record { adopted = []; dismissed = [] }; file = absent } ≡ s =
      ground (arith, e) in
    let start : Refines s blank =
      subst (λ x. Refines x blank) fresh
        (record { disjoint = λ d. refl; written = tt; current = λ d. refl; durable = λ d. refl }) in
    let r = run-Refines os s blank start in
    (r, λ d. is_adopted-Refines d (run os s) (table_run os blank) r)
