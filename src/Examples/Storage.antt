-- ===== src/Examples/Storage.antt =====
-- A commit log with nothing in it, and one that is about to leave its first segment
-- (cluster/go/broker/storage/bridge_go.go).
use distributed_mq.Prelude.{ℕ, ◌≡◌, refl, none, some, [], ◌∷◌, arith}
use distributed_mq.Prelude.{nat_eq, string_eq}
use distributed_mq.Prelude.Map.{lookup, get_or}
use distributed_mq.Storage.{CommitLog, cut_after, complete, append, append_all, read}
use distributed_mq.Storage.ReadBack.{IsAligned, append-read}
use distributed_mq.Storage.Boundary.{boundary_lost}

abbrev log_at : ℕ → CommitLog
log_at offset = record {
  files = [];
  segments = [];
  last_offset = offset;
  batch_buffer = [];
  batch_size = 100;
}

log_at-IsAligned : IsAligned (log_at 0)
unfolding lookup get_or
log_at-IsAligned = (omega arith, refl)

append-read_example :
    ((append complete 5 (7 ∷ 8 ∷ []) (log_at 0)).0 ≡ some 0)
    × (read 0 2
          (append_all ((cut_after 3, 6, 9 ∷ []) ∷ []) (append complete 5 (7 ∷ 8 ∷ []) (log_at 0)).1)
        ≡ some (7 ∷ 8 ∷ []))
append-read_example =
    append-read 5 (7 ∷ 8 ∷ []) ((cut_after 3, 6, 9 ∷ []) ∷ []) (log_at 0) log_at-IsAligned

no_second_file : lookup 1 (log_at 1048570).files ≡ none
unfolding lookup
no_second_file = refl

boundary_lost_example :
    ((append complete 6 (9 ∷ []) (append complete 5 (7 ∷ 8 ∷ []) (log_at 1048570)).1).0
      ≡ some 1048592)
    × (read 1048592 1
          (append complete 6 (9 ∷ []) (append complete 5 (7 ∷ 8 ∷ []) (log_at 1048570)).1).1
        ≡ none)
boundary_lost_example =
    boundary_lost 5 6 (7 ∷ 8 ∷ []) (9 ∷ []) (log_at 1048570) (omega arith) no_second_file
      (omega arith) (omega arith) (omega arith)
