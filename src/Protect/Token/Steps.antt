-- ===== src/Protect/Token/Steps.antt =====
-- The operations of the token store as steps, and the index that each of them keeps.
use selenwright.Prelude.{
  ℕ, suc, ◌≡◌, refl, Bool, List, [], ◌∷◌, Option, none, some, Str, StrMap, arith,
}
use selenwright.Protect.Token.{
  Crypto, TokenRecord, TokenStore, index_from, add_record, touched, touch_all, touch_last_used,
  create, seed, revoke, revoke_by_owner, flush_touches,
}
use selenwright.Protect.Token.Index.{IsIndexed}

touched-hash_prefix :
    (pending : StrMap ℕ) (t : TokenRecord) → (touched pending t).hash_prefix ≡ t.hash_prefix
unfolding touched
touched-hash_prefix pending t = ground arith

index_from-touch_all :
    (pending : StrMap ℕ) (i : ℕ) (idx : StrMap (List ℕ)) (ts : List TokenRecord)
    → index_from i idx (touch_all pending ts) ≡ index_from i idx ts
unfolding index_from touch_all
index_from-touch_all pending i idx [] = refl
index_from-touch_all pending i idx (t ∷ ts) =
    rw (touched-hash_prefix pending t) (index_from-touch_all pending (suc i) _ ts)

pub add_record-IsIndexed :
    (written : Bool) (rec : TokenRecord) (s : TokenStore) → IsIndexed (add_record written rec s)
unfolding add_record
add_record-IsIndexed written rec s = ground arith

-- The operations of the store that change it, with what the world answers.
pub data TokenOp : Type 0 where
  creates : ℕ → Option Str → (Str → Option Str) → Option Str → Bool → Str → Str → List Str → TokenOp
  seeds : ℕ → (Str → Option Str) → Option Str → Bool → Str → Str → Str → List Str → TokenOp
  touches : ℕ → Str → TokenOp
  revokes revokes_owner : Bool → Str → TokenOp
  flushes : Bool → TokenOp

-- A panic leaves the store as it was.
abbrev after {ℓ} : {A : Type ℓ} → TokenStore → Option (TokenStore × A) → TokenStore
after s none = s
after s (some (s', r)) = s'

unfoldable pub apply : Crypto → TokenStore → TokenOp → TokenStore
apply c s (creates now body hash_of id_body written owner name groups) =
    (create c now body hash_of id_body written owner name groups s).0
apply c s (seeds now hash_of id_body written owner name plaintext groups) =
    after s (seed c now hash_of id_body written owner name plaintext groups s)
apply c s (touches now id) = touch_last_used now id s
apply c s (revokes written id) = (revoke written id s).0
apply c s (revokes_owner written owner) = (revoke_by_owner written owner s).0
apply c s (flushes written) = (flush_touches written s).0

-- Every operation keeps the index in step with the records.
pub apply-IsIndexed :
    (c : Crypto) (s : TokenStore) (op : TokenOp) → IsIndexed s → IsIndexed (apply c s op)
unfolding apply create seed touch_last_used revoke revoke_by_owner flush_touches add_record
apply-IsIndexed c s (creates now body hash_of id_body written owner name groups) v = ground arith
apply-IsIndexed c s (seeds now hash_of id_body written owner name plaintext groups) v = ground arith
apply-IsIndexed c s (touches now id) v = ground arith
apply-IsIndexed c s (revokes written id) v = ground arith
apply-IsIndexed c s (revokes_owner written owner) v = ground arith
apply-IsIndexed c s (flushes written) v =
    ground (arith, index_from-touch_all s.pending_touch 0 [] s.tokens)
