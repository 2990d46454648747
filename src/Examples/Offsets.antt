-- ===== src/Examples/Offsets.antt =====
-- The store of consumer offsets (cluster/go/nameserver/offset_store.go) on a database that keeps a map.
use Prim.Native.String
use mathlib.Core.Path.{ap, sym}
use distributed_mq.Prelude.Text.{decimal}
use distributed_mq.Prelude.{
  if◌then◌else◌, ◌==◌, str_iff, ℕ, String, ◌≡◌, refl, ◌∙◌, ◌≢◌, true, none, some, List, [], ◌∷◌,
  arith,
}
use distributed_mq.Prelude.{nat_eq, string_eq}
use distributed_mq.Prelude.Int.{pos}
use distributed_mq.Prelude.Map.{Map, beq_refl, lookup, insert, delete, lookup-insert}
use distributed_mq.Go.{ret}
use distributed_mq.Storage.{big_endian}
use distributed_mq.NameServer.{success, number}
use distributed_mq.NameServer.Offsets.{
  BoltDb, offset_key, put_offset, get_offset_of, handle_commit_offset, handle_get_offset,
}
use distributed_mq.NameServer.Offsets.Commits.{
  IsBolt, handle_commit_offset-handle_get_offset, key_shared,
}

abbrev Pages : Type 0
Pages = Map String (List ℕ)

-- a database that keeps its keys in a map and takes every write
abbrev pages_db : BoltDb Pages
pages_db = record {
  is_open = λ s. true;
  has_bucket = λ s. true;
  get_key = λ key s. lookup key s;
  put_key = λ key value s. some (insert key value s);
  delete_key = λ key s. some (delete key s);
}

inserted :
    (key j : String) (value : List ℕ) (s s' : Pages)
    → pages_db.put_key key value s ≡ some s'
    → lookup j s' ≡ (if key == j then some value else lookup j s)
inserted key j value s s' done =
    ap (λ m. elim m [ none ↦ none | some found ↦ lookup j found ]) (sym done)
    ∙ lookup-insert key j value s

named : ◌≢◌ {A = String} "g" ""
named h = absurd (ground (arith, str_iff "g" ""))

topic_there : ◌≢◌ {A = String} "orders" ""
topic_there h = absurd (ground (arith, str_iff "orders" ""))

pages_laws : IsBolt Pages pages_db
pages_laws = record {
  put_open = λ key value s s' done. (refl, refl);
  put_bucket = λ key value s s' done. refl;
  put_same = λ key value s s' done. ground (arith, inserted key key value s s' done, beq_refl key);
  put_other = λ key other value s s' done differ.
      ground (arith, inserted key other value s s' done, str_iff key other);
}

abbrev after_commit : Pages
after_commit = (offset_key "g" "orders" (pos 0), 0 ∷ 0 ∷ 0 ∷ 0 ∷ 0 ∷ 0 ∷ 0 ∷ 7 ∷ []) ∷ []

put_done : put_offset pages_db "g" "orders" (pos 0) (pos 7) [] ≡ some after_commit
unfolding put_offset insert big_endian
put_done = refl

other_key : offset_key "g" "orders" (pos 1) ≢ offset_key "g" "orders" (pos 0)
unfolding offset_key decimal
other_key h =
    absurd
      (ground (arith, str_iff (offset_key "g" "orders" (pos 1)) (offset_key "g" "orders" (pos 0))))

handle_commit_offset-handle_get_offset_example :
    (handle_commit_offset pages_db "g" "orders" (number 0) (number 7) (some [])
      ≡ (success (pos 7), some after_commit))
    × (handle_get_offset pages_db "g" "orders" (number 0) (some after_commit)
        ≡ ret (success (pos 7)))
    × (get_offset_of pages_db "g" "orders" (pos 1) after_commit
        ≡ get_offset_of pages_db "g" "orders" (pos 1) [])
handle_commit_offset-handle_get_offset_example =
    handle_commit_offset-handle_get_offset pages_db pages_laws "g" "orders" "g" "orders" (number 0)
      (number 7) (pos 0) (pos 7) (pos 1) [] after_commit named topic_there refl refl (omega arith)
      put_done other_key

abbrev shared_commit : Pages
shared_commit = (offset_key "g/orders" "eu" (pos 0), 0 ∷ 0 ∷ 0 ∷ 0 ∷ 0 ∷ 0 ∷ 0 ∷ 7 ∷ []) ∷ []

shared_done :
    put_offset pages_db (String.◌++◌ "g" (String.◌++◌ "/" "orders")) "eu" (pos 0) (pos 7) []
    ≡ some shared_commit
unfolding put_offset insert big_endian
shared_done = refl

key_shared_example :
    handle_get_offset pages_db "g"
      (String.◌++◌ "orders" (String.◌++◌ "/" "eu"))
      (number 0)
      (some shared_commit)
    ≡ ret (success (pos 7))
key_shared_example =
    key_shared pages_db pages_laws "g" "orders" "eu" (number 0) (pos 0) (pos 7) [] shared_commit
      named refl (omega arith) shared_done
